-- ===== src/Lib.antt =====
-- AttendEase OS: school attendance by QR cards, RFID gates and manual marks.
--
-- The development models services of the server. Each operation is a function on the state that the
-- service keeps, and the database is a record of tables whose rows are those of src/db/schema.ts.
--
-- Parts and files:
-- - Common: shared tests, lists, maps, sorting, and results with errors. Numbers are native; a
--   JavaScript Map is an association list in insertion order.
-- - Store: the tables that the services write, of src/db/schema.ts. Directory: those that they only
--   read, and the roles of src/auth/permissions.ts.
-- - Ingest: the RFID pipeline, src/services/rfid/. A payload is cut into raw reads
--   (Ingest/Payload: extractRawReads), made into normalized reads (Ingest/Epc: canonicalizeEpc,
--   computeEpcDigest; Ingest/Freshness: classifyReadTime; Ingest/Normalize: normalizeReads),
--   deduplicated (Ingest/Dedupe: dedupeInBatch), decided one by one (Ingest/Decide: decideRead),
--   written (Ingest/Write: writeOutcomes, writeScanEvents, with its steps A to D in
--   Ingest/Write/Sessions, Ingest/Write/Upsert and Ingest/Write itself) and counted (Ingest/Batch:
--   processZebraBatch, summarize).
-- - Attendance: src/services/attendanceService.ts. Attendance/Access: verifyTeacherAssignment;
--   Attendance/Sessions: createAttendanceSession; Attendance/Status: updateSessionStatus,
--   finalizeAttendanceSession; Attendance/Scan: processQRCode; Attendance/Manual:
--   manualStatusUpdate; Attendance/Tables: their statements on the tables.
-- - Notifications: the SMS jobs that a finalisation creates (Notifications/Absence:
--   createAbsenceNotificationJobs of src/services/notificationService.ts) and that a corrected mark
--   takes back (Notifications/Jobs: onAttendanceCorrected of
--   src/services/notifications/absenceScheduler.ts). Attendance calls both. Notifications/Sms:
--   estimateSmsSegments and redactPhoneNumber of src/services/sms/smsUtils.ts. Notifications/Privacy:
--   hasConsent, recordConsent and withdrawConsent of src/services/privacy/consent.ts.
-- - Worker: the queue worker of src/services/notificationWorker.ts. Worker/Claim: claimEligibleJobs;
--   Worker/Guards and Worker/Process: processClaimedJob; Worker/Queue: recordFailure and
--   processNotificationQueue. It uses the consents and the segments of Notifications. The provider,
--   its replies from call to call, and the faults of the database are parameters.
-- - Qr: the QR credentials of src/services/qrService.ts, which Attendance reads. Qr/Defs: the
--   operations; Qr/View: what they promise, one token for each student.
-- - Reports: the approval of reports, src/services/reportApprovalService.ts. Reports/Drafts:
--   createReportDraft and recordReportArtifact; Reports/Defs: approveReportInternally and the
--   downloads; Reports/Runs: runs of them.
-- - Sync: the server's side of the synchronisation, src/services/syncService.ts, and the devices of
--   src/services/deviceService.ts. Sync/Batch: syncAttendanceEvents, on Sync/Sessions (the sessions
--   that clients have opened without a connection) and Sync/Events (one processQRCode of Attendance
--   for each event); Sync/Roster: getOfflineRosterPackage.
-- - Offline: the outbox of the client, src/services/offlineSyncService.ts. Offline/Events:
--   markSyncFailure and classifySyncFailure; Offline/Outbox: syncOutboxEvents, with the server's
--   replies as a parameter.
--
-- Choices of the model:
-- - Identifiers and digests are numbers, since the code only compares them; the database draws the
--   next number that is not in use where the code asks for a random identifier. Instants are whole
--   milliseconds, and a calendar day is a number. Texts that the code walks through are lists of code
--   units, and statuses that it only compares are native strings or data types. A parameter that the
--   code tests for absence and emptiness in one is the empty text where it is absent.
-- - The numbers of a payload are whole and not negative. A time that is an object with a key toString
--   cannot be printed, and normalising it throws, as the code's String does. An antenna or a signal
--   strength from 2 ^ 31 on, or a time after the year 9999, does not fit its column, and the insert of
--   the log throws.
-- - A thrown error inside an inner transaction leaves the request's transaction usable. The one insert
--   of processQRCode outside of one, of a repeated scan, has an error of its own,
--   transaction_aborted: in a batch of events it makes the whole call throw and roll back. The failed
--   claim of the worker has aborted the transaction too, so that the call throws in any environment.
-- - Identifiers of client sessions are texts: exact as keys of a Map, without regard to case in the
--   database, where the column is a UUID.
-- - The order in which an UPDATE returns its rows is a parameter (ReturnOrder of Worker/Claim).
-- - SHA-256, the parsing of numbers and of texts as dates, and the calendar day of an instant in the
--   school's time zone and in UTC are parameters. What a theorem needs of them is among its hypotheses,
--   in compute_epc_digest-injective and in the two theorems on a batch that is sent again.
-- - Operations run one at a time. A thrown error is a value: `none`, or a constructor of the result.
--   An operation that runs in one transaction, or throws before it writes, returns a database only
--   where it succeeds; manualStatusUpdate and syncAttendanceEvents return the database that their
--   statements leave in any case, syncAttendanceEvents the one from before where its transaction was
--   aborted.
-- - Authentication, the settings of the school, and the rows that loadContext selects are arguments
--   of processZebraBatch. Its debounce in Redis is a set that the context holds.
-- - The rows of unique indexes that the services rely on are checked on insertion: the key of a
--   record, the identifier of an event, the keys of a job, and the students of a new roster.
-- - Columns that no modelled code reads are left out, the texts of messages among them.
-- - The slices of the outbox are cut with a bound on their number, the number of its events, which
--   batches-concat shows to be enough. Every other loop is a recursion on a list.
--
-- Not modelled: routes and middleware, the React client, reports, imports and exports, key
-- management, Redis, metrics, the SMS gateways, and login sessions.
pub mod Attendance
pub mod Common
pub mod Directory
pub mod Ingest
pub mod Notifications
pub mod Offline
pub mod Qr
pub mod Reports
pub mod Store
pub mod Sync
pub mod Worker
