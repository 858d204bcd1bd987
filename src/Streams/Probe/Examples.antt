-- ===== src/Streams/Probe/Examples.antt =====
-- A camera that pushes H.264 video without sound, and one that cannot be reached.
use sms_app.Base.{
  false, ◌==◌, string_eq, none, some, [], ◌∷◌, ◌≡◌, refl, ok, err, failure, if◌then◌else◌,
}
use sms_app.Streams.Probe.{
  World, Job, Row, ServerStream, Video, CodecInfo, process, pending, blank_info,
}
use sms_app.Streams.Probe.Messages.{normalize_error}
use sms_app.Streams.Probe.Settled.{writes, IsSettled, probe_settles}
use sms_app.Cameras.Ffprobe.{detect_brand}

abbrev encoder : Row
encoder = record { ingest_mode = "push"; stream_key = some "k"; needs_transcode = false }

abbrev h264 : Video
h264 = record {
  codec = "H.264";
  width = 1920;
  height = 1080;
  fps = none;
  profile = none;
  level = none;
}

abbrev silent : ServerStream
silent = record { video = some h264; audio = none }

abbrev world : World
world = record {
  now = 7;
  row_query = ok tt;
  camera = some encoder;
  update = λ i. ok tt;
  get_stream = λ name. ok (if name == "push/k" then some silent else none);
  find_publisher = λ name. ok (some "client");
  kick = λ client. ok tt;
  audit = ok tt;
  probe_camera = λ url. err (failure "connect ECONNREFUSED 10.0.0.9:554");
  slice_4 = λ s. s;
}

abbrev unreachable : Job
unreachable = record {
  camera_id = "c";
  stream_url = "rtsp://10.0.0.9/s";
  org_id = "o";
  source = none;
}

probe_settles_example :
    (i : CodecInfo) × ((process world unreachable).1 ≡ ok tt)
    × (writes (process world unreachable).0 ≡ blank_info pending 7 "ffprobe" ∷ i ∷ [])
    × IsSettled (some encoder) (process world unreachable).0 i
probe_settles_example = probe_settles world (λ i. refl) unreachable refl

refused :
    normalize_error "connect ECONNREFUSED 10.0.0.9:554"
    ≡ "Camera refused the connection — check the port and that the camera is on"
unfolding normalize_error
refused = refl

server_error : normalize_error "x: Server returned 503 Busy" ≡ "Camera reported an internal error"
unfolding normalize_error
server_error = refl

by_url_and_encoder :
    detect_brand (λ url. some "/media/video2") "rtsp://h/media/video2" (some "Hisilicon V200")
    ≡ record {
      hint = "uniview";
      confidence = "high";
      evidence =
          "url-path:/media/video2" ∷ "tags.encoder:Hisilicon V200"
          ∷ "shared-soc:uniview/hikvision/dahua" ∷ [];
    }
unfolding detect_brand
by_url_and_encoder = refl
