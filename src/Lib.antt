-- ===== src/Lib.antt =====
-- A verification library of the surveillance management system: the server's core of camera streams.
--
-- The program's parts and where they are modelled. Paths are from the repository's root.
--
-- - Camera.antt: the columns of a camera row and of a stream profile (apps/api/src/prisma/schema.prisma)
--   that the services read, and the texts of the status column.
-- - Status.antt: apps/api/src/status/status.service.ts (`transition`, the viewer counts) and
--   processors/notify-dispatch.processor.ts (`dispatch`).
-- - Streams/Health.antt: apps/api/src/streams/stream-health-metrics.service.ts, all of its methods over
--   the records of the cameras and the start times.
-- - Streams/Jobs.antt: apps/api/src/resilience/job-data.helper.ts and the constants of the job queue.
-- - Streams/Ffmpeg.antt: apps/api/src/streams/ffmpeg/ffmpeg.service.ts, the calls and the process events;
--   Streams/Ffmpeg/Restart.antt: `gracefulRestart`.
-- - Streams/Processor.antt: apps/api/src/streams/processors/stream.processor.ts (one attempt of a job),
--   profile-fingerprint.util.ts and stream-guard-metrics.service.ts.
-- - Streams/Service.antt: apps/api/src/streams/streams.service.ts.
-- - Streams/Profiles.antt: apps/api/src/streams/stream-profile.service.ts.
-- - Cameras/Service.antt, Cameras/Changes.antt: apps/api/src/cameras/cameras.service.ts (creation, import
--   and plan limits; updates, deletion, stream keys, maintenance mode, probes) and stream-key.util.ts.
-- - Cameras/Tags.antt: apps/api/src/cameras/tag-normalize.ts and `bulkTagAction`.
-- - Recordings/Service.antt: apps/api/src/recordings/recordings.service.ts.
-- - Recordings/H264.antt, Recordings/Manifest.antt: h264-utils.ts and manifest.service.ts of the same
--   folder.
-- - Recordings/Download.antt, Recordings/Hls.antt: download-playlist.util.ts and archive-metrics.service.ts
--   of the same folder, with `onHls` of apps/api/src/srs/srs-callback.controller.ts.
-- - Recordings/Schedule.antt, Recordings/Retention.antt: schedule.processor.ts and retention.processor.ts
--   of the same folder.
-- - Resilience.antt: apps/api/src/resilience/camera-health.service.ts (`runTick`),
--   srs-restart-detector.ts and boot-recovery.service.ts.
-- - Policies.antt: apps/api/src/policies/policies.service.ts.
-- - Playback.antt: apps/api/src/playback/playback.service.ts.
-- - Playback/Callbacks.antt: the play, stop and forward hooks of
--   apps/api/src/srs/srs-callback.controller.ts.
-- - Playback/Publish.antt: `onPublish` of the same controller.
-- - Playback/Keys.antt: `parseStreamKey` of the same controller.
-- - ApiKeys.antt, ApiKeys/Access.antt: apps/api/src/api-keys/api-keys.service.ts (the usage; the keys) with
--   the guards of the same folder and of apps/api/src/features.
-- - Webhooks.antt: apps/api/src/webhooks/webhooks.service.ts; Webhooks/Url.antt and Webhooks/Delivery.antt:
--   webhook-url.validator.ts and webhook-delivery.processor.ts of the same folder.
-- - Streams/Probe.antt, Streams/Probe/Messages.antt:
--   apps/api/src/streams/processors/stream-probe.processor.ts (one job; `normalizeError`).
-- - Cameras/Ffprobe.antt: apps/api/src/cameras/ffprobe.service.ts.
-- - Streams/Command.antt: apps/api/src/streams/ffmpeg/ffmpeg-command.builder.ts.
-- - Accounts/Roles.antt, Accounts/Guards.antt: apps/api/src/auth (roles.ts, permissions.ts, the guards).
-- - Accounts/Members.antt: apps/api/src/users/users.service.ts.
-- - Accounts/Notifications.antt: apps/api/src/notifications/notifications.service.ts.
-- - Accounts/PlanUsage.antt: apps/api/src/account/plan-usage/plan-usage.service.ts.
-- - Audit.antt: apps/api/src/audit/audit.interceptor.ts and audit.service.ts.
-- - Web/Import.antt, Web/Import/Request.antt:
--   apps/web/src/app/admin/cameras/components/bulk-import-dialog.tsx (the rows of the dialog; the request)
--   and apps/web/src/lib/stream-url-validation.ts.
-- - Web/Bulk.antt, Web/Labels.antt, Web/Texts.antt: bulk-actions.ts, audit/derive-action-label.ts, and the
--   texts of errors, durations, profiles and markup in apps/web/src/lib.
-- - Cluster.antt: apps/api/src/cluster/cluster-health.service.ts (`checkNode`) and the guard of `remove`
--   in cluster.service.ts.
-- - Base.antt: lists, tests, association lists, results, sorting and the codes of texts that the parts
--   share.
--
-- How the parts interact: the health tick reads the health metrics and FFmpeg, asks the status service
-- for transitions and adds jobs; a job's attempt asks FFmpeg to spawn and reports crash loops to the
-- metrics; the streams service adds and replaces jobs, also for the profile and camera updates; the
-- schedules start and stop recordings by the recordings service, whose segments the playlists, the quota
-- and the retention read and the segment hook archives; the publish hook goes by the cameras' stream
-- keys; play callbacks use sessions, policies and the viewer counts; the publish hook and the camera
-- changes ask for probes; the usage of a plan reads the counters and rows of the API keys; the web
-- application's bulk actions and import make the requests that the camera services answer, and the audit
-- labels read the rows of the audit log.
--
-- How state and calls are written: the memory of a service is a record that each method takes and
-- returns. Database rows, queue answers, clocks and random jitter are arguments; the calls that a method
-- makes are values of a data type, in order. Exceptions are values of `Result`. BullMQ, where the
-- contents of the queue matter, is the interface `JobQueue`, and `jsonwebtoken` is the interface `Jwt`;
-- SHA-256, the host name of an address, and the text
-- and calendar functions of the host language are parameters, as are the HTTP answers of webhooks and of
-- the media server. The runners of a bulk action interleave at their requests by a step relation, and
-- requests are counted between the awaits of the daily usage job; the calls of every other method are taken
-- to find the database as the method found it, with no other call between them. Times
-- are in milliseconds and durations of segments in microseconds.
--
-- Loops are structural recursion on the list that they go through. The decimal text of a frame rate has
-- one more than the number as its fuel, which has fewer digits than that. The polling of
-- `gracefulRestart` has fuel for one round more than the grace period has milliseconds, which is enough as
-- a pause takes a millisecond at least.
--
-- The attempts of a webhook delivery have the four retries of its job as fuel.
--
-- Not modelled: HTTP clients, sockets, object storage, FFmpeg and ffprobe themselves, the process table at
-- boot, the tenancy context, log lines, the parsing of import files, the rendering and fetching of the web
-- application, and the other services of the server (projects and sites, sign-up, sessions, recording
-- requests, dashboards).
pub mod Accounts
pub mod ApiKeys
pub mod Audit
pub mod Base
pub mod Camera
pub mod Cameras
pub mod Cluster
pub mod Playback
pub mod Policies
pub mod Recordings
pub mod Resilience
pub mod Status
pub mod Streams
pub mod Web
pub mod Webhooks
