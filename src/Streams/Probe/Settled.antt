-- ===== src/Streams/Probe/Settled.antt =====
-- What a probe leaves in the `codecInfo` column, and whom it kicks.
use sms_app.Base.{
  ℕ, suc, ◌+◌, String, Bool, true, false, ◌||◌, Option, none, some, List, [], ◌∷◌, ◌++◌, ◌≡◌, refl,
  arith, ◌⊎◌, inl, inr, ◌==◌, string_eq, if◌then◌else◌, contains, Result, ok, err, Error,
  Bool-cases, Result-cases, ap, sym, subst,
}
use sms_app.Cameras.Ffprobe.{ProbeResult}
use sms_app.Streams.Probe.Messages.{normalize_error-phrases, phrases, message_of}
use sms_app.Streams.Probe.{
  World, Job, Row, ServerStream, Trace, Effect, wrote, kicked, audited, CodecInfo, CodecStatus,
  pending, mismatch, write_codec_info, judge, judge_found, probe_server, probe_feed, record_failure,
  process, find_stream, is_mismatch, is_push_passthrough, kick_effects, audit_effects, blank_info,
  source_or_default, mismatch_info, success_info, probed_info, failed_info, then_,
}

abbrev pub writes : List Effect → List CodecInfo
writes [] = []
writes (wrote i extra ∷ es) = i ∷ writes es
writes (kicked client ∷ es) = writes es
writes (audited p v a ∷ es) = writes es

abbrev pub kicks : List Effect → ℕ
kicks [] = 0
kicks (wrote i extra ∷ es) = kicks es
kicks (kicked client ∷ es) = suc (kicks es)
kicks (audited p v a ∷ es) = kicks es

abbrev pub is_pending : CodecStatus → Bool
is_pending pending = true
is_pending _ = false

-- The error of an info, where it has one, is one of the phrases.
abbrev pub error_is_phrase : Option String → Bool
error_is_phrase none = true
error_is_phrase (some e) = contains phrases e

-- What the last update of a probe is: settled, with no error text but a phrase; a kick comes only with
-- a mismatch of a push camera that is passed through.
abbrev pub IsSettled : Option Row → List Effect → CodecInfo → Type 0
IsSettled camera es i =
    (is_pending i.status ≡ false)
    × (error_is_phrase i.error ≡ true)
    × ((kicks es ≡ 0) ⊎ ((i.status ≡ mismatch) × (is_push_passthrough camera ≡ true)))

writes-append : (es fs : List Effect) → writes (es ++ fs) ≡ writes es ++ writes fs
writes-append [] fs = refl
writes-append (wrote i extra ∷ es) fs = ap (◌∷◌ i) (writes-append es fs)
writes-append (kicked client ∷ es) fs = writes-append es fs
writes-append (audited p v a ∷ es) fs = writes-append es fs

kicks-append : (es fs : List Effect) → kicks (es ++ fs) ≡ kicks es + kicks fs
kicks-append [] fs = omega arith
kicks-append (wrote i extra ∷ es) fs = kicks-append es fs
kicks-append (kicked client ∷ es) fs = omega (arith, kicks-append es fs)
kicks-append (audited p v a ∷ es) fs = kicks-append es fs

-- A world where the updates of the column go through.
module _ (w : World) (updates : (i : CodecInfo) → w.update i ≡ ok tt) where
  abbrev Settles : Trace → Type 0
  Settles t =
      ((i : CodecInfo) × (t.1 ≡ ok tt) × (writes t.0 ≡ i ∷ []) × IsSettled w.camera t.0 i)
      ⊎ ((e : Error) × (t.1 ≡ err e) × (t.0 ≡ []))

  writes-kick : writes (kick_effects w) ≡ []
  unfolding kick_effects
  writes-kick = ground arith

  writes-audit : (s : ServerStream) → writes (audit_effects w s) ≡ []
  unfolding audit_effects
  writes-audit s = ground arith

  pub write-through :
      (i : CodecInfo) (extra : Option ProbeResult)
      → write_codec_info w i extra ≡ (wrote i extra ∷ [], ok tt)
  unfolding write_codec_info
  write-through i extra = rw (updates i, write_codec_info) refl

  pub judge_mismatch :
      (s : ServerStream)
      → is_mismatch w.camera s ≡ true
      → judge w s
        ≡ (wrote (mismatch_info w.now s) none ∷ (kick_effects w ++ audit_effects w s), ok tt)
  unfolding judge
  judge_mismatch s h = rw (h, judge, write-through (mismatch_info w.now s) none) refl

  judge_match :
      (s : ServerStream)
      → is_mismatch w.camera s ≡ false
      → judge w s ≡ (wrote (success_info w.now s) none ∷ [], ok tt)
  unfolding judge
  judge_match s h = rw (h, judge, write-through (success_info w.now s) none) refl

  mismatch_passthrough :
      (s : ServerStream) → is_mismatch w.camera s ≡ true → is_push_passthrough w.camera ≡ true
  unfolding is_mismatch
  mismatch_passthrough s h = ground arith

  judge-Settles : (s : ServerStream) → Settles (judge w s)
  judge-Settles s = elim (Bool-cases (is_mismatch w.camera s)) [
    | inl h ↦ subst Settles (sym (judge_mismatch s h)) (
        inl (
          mismatch_info w.now s,
          refl,
          rw (writes-append (kick_effects w) (audit_effects w s), writes-kick, writes-audit s) refl,
          (refl, refl, inr (refl, mismatch_passthrough s h)),
        ))
    | inr h ↦
        subst Settles (sym (judge_match s h))
          (inl (success_info w.now s, refl, refl, (refl, refl, inl refl)))
  ]

  judge_found-Settles : (s : Option ServerStream) → Settles (judge_found w s)
  judge_found-Settles none = inr (_, refl, refl)
  judge_found-Settles (some s) = judge-Settles s

  probe_server-find :
      (job : Job) (r : Result (Option ServerStream))
      → find_stream w job ≡ r
      → probe_server w job ≡ (elim r [ err e ↦ ([], err e) | ok s ↦ judge_found w s ])
  unfolding probe_server
  probe_server-find job r h = rw (h, probe_server) refl

  probe_server-Settles : (job : Job) → Settles (probe_server w job)
  probe_server-Settles job = elim (Result-cases (find_stream w job)) [
    | inl (e, h) ↦ subst Settles (sym (probe_server-find job (err e) h)) (inr (e, refl, refl))
    | inr (s, h) ↦ subst Settles (sym (probe_server-find job (ok s) h)) (judge_found-Settles s)
  ]

  probe_feed-camera :
      (job : Job) (r : Result ProbeResult)
      → w.probe_camera job.stream_url ≡ r
      → probe_feed w job ≡ (elim r [
        | err e ↦ ([], err e)
        | ok p ↦ (wrote (probed_info w.now p) (some p) ∷ [], ok tt)
      ])
  unfolding probe_feed
  probe_feed-camera job (err e) h = rw (h, probe_feed) refl
  probe_feed-camera job (ok p) h = rw (h, probe_feed) (write-through (probed_info w.now p) (some p))

  probe_feed-Settles : (job : Job) → Settles (probe_feed w job)
  probe_feed-Settles job = elim (Result-cases (w.probe_camera job.stream_url)) [
    | inl (e, h) ↦ subst Settles (sym (probe_feed-camera job (err e) h)) (inr (e, refl, refl))
    | inr (r, h) ↦
        subst Settles (sym (probe_feed-camera job (ok r) h))
          (inl (probed_info w.now r, refl, refl, (refl, refl, inl refl)))
  ]

  -- After the catch block the probe has settled.
  abbrev Recorded : Trace → Type 0
  Recorded t = (i : CodecInfo) × (t.1 ≡ ok tt) × (writes t.0 ≡ i ∷ []) × IsSettled w.camera t.0 i

  record_failure-err :
      (job : Job) (e : Error)
      → record_failure w job ([], err e)
        ≡ (wrote (failed_info w.now (source_or_default job.source) e) none ∷ [], ok tt)
  unfolding record_failure
  record_failure-err job e =
      rw (record_failure, write-through (failed_info w.now (source_or_default job.source) e) none)
        refl

  record_failure-Recorded : (job : Job) (t : Trace) → Settles t → Recorded (record_failure w job t)
  unfolding record_failure
  record_failure-Recorded job (es, ok _) (inl (i, h, e, s)) = (i, refl, e, s)
  record_failure-Recorded job (es, ok _) (inr (e, h, n)) = absurd (cc h)
  record_failure-Recorded job (es, err e) (inl (i, h, f, s)) = absurd (cc h)
  record_failure-Recorded job ([], err e) (inr (e', h, n)) =
      subst Recorded (sym (record_failure-err job e)) (
        failed_info w.now (source_or_default job.source) e,
        refl,
        refl,
        (refl, normalize_error-phrases (message_of e), inl refl),
      )
  record_failure-Recorded job (x ∷ es, err e) (inr (e', h, n)) = absurd (cc n)

  body-Recorded :
      (job : Job) (b : Bool)
      → Recorded (record_failure w job (if b then probe_server w job else probe_feed w job))
  body-Recorded job true =
      record_failure-Recorded job (probe_server w job) (probe_server-Settles job)
  body-Recorded job false = record_failure-Recorded job (probe_feed w job) (probe_feed-Settles job)

  pub process-body :
      (job : Job)
      → (job.camera_id == "" || job.stream_url == "") ≡ false
      → process w job
        ≡ then_
            (wrote (blank_info pending w.now (source_or_default job.source)) none ∷ [], ok tt)
            (record_failure w job (
              if source_or_default job.source == "srs-api"
              then probe_server w job
              else probe_feed w job))
  unfolding process
  process-body job h =
      rw (h, process, write-through (blank_info pending w.now (source_or_default job.source)) none)
        refl

  -- A probe of a camera with an id and an address, where the updates of the column go through, makes
  -- two of them: that it is pending, then one that is not pending, whose error, where it has one, is one
  -- of the fixed phrases. The job does not throw. A publisher is kicked only if the second update says
  -- that the codec does not match, which is so only for a push camera that is passed through.
  pub probe_settles :
      (job : Job)
      → (job.camera_id == "" || job.stream_url == "") ≡ false
      → (i : CodecInfo) × ((process w job).1 ≡ ok tt)
        × (writes (process w job).0
            ≡ blank_info pending w.now (source_or_default job.source) ∷ i ∷ [])
        × IsSettled w.camera (process w job).0 i
  probe_settles job h =
      let (i, done, written, settled) =
        body-Recorded job (source_or_default job.source == "srs-api") in
      rw (process-body job h) (
        i,
        done,
        ap (◌∷◌ (blank_info pending w.now (source_or_default job.source))) written,
        settled,
      )
