-- ===== src/Lib.antt =====
-- SketchLog: constant-memory telemetry sketches, and the guards of the service around them. This
-- library models the Python implementation in python/sketchlog/.
--
-- The parts of the program and the modules that model them:
--   * core/cms.py, CountMinSketch: Sketch/Cms.antt, one function for each method (`init` is
--     `__init__`, `add`, `estimate`, `reset`, ...); the hashes of both sketches are in
--     Sketch/Hash.antt, the count arguments and the limits of the counters in Sketch/Count.antt.
--   * core/hll.py, HyperLogLog: Sketch/Hll.antt, with `merge` from facade.py; `estimate` is in
--     Sketch/Hll/Estimate.antt.
--   * core/ddsketch.py, DDSketch: Sketch/Ddsketch.antt, with its bucket dictionaries in
--     Sketch/Bins.antt. The chain of checks of `add` is one function for each check;
--     `add_batch` is in Sketch/Ddsketch/Batch.antt, `quantile` in Sketch/Ddsketch/Quantile.antt;
--     Sketch/Ddsketch/Rank.antt says what the quantile of a stream of values is.
--     Sketch/Ddsketch/Summary.antt is the abstract view: the values that a sketch was given, each
--     with its count, in any order.
--   * rate_limit.py: RateLimit/Quota.antt (NamespaceQuota, RateLimitConfig, get_quota and
--     check_rate_limit_config), RateLimit/Bucket.antt (_TokenBucket), RateLimit/Counter.antt
--     (_QuotaCounter) and RateLimit/Enforcer.antt (RateLimitEnforcer), which composes them: a
--     request reads the quota of its namespace, counts itself, takes tokens, and rolls the count
--     back when there are too few.
--   * facade.py, _PythonStreamLog: Log.antt. It holds the three sketches and their total; `merge`
--     computes the new parts (`plan`) and writes them (`merged`) only if no check has
--     failed; `add_latencies` is its `add_batch`. The percentiles are in Log/Percentile.antt,
--     `to_dict` in Log/State.antt, over the kinds of values that JSON has, and `from_dict` in
--     Log/State/Decode.antt, with its readers in Log/State/Read.antt and Log/State/Latency.antt.
--   * rbac.py: Rbac.antt. `check_access` is RBACEnforcer.check, `log` is AuditLogger.log and
--     `rbac_status` the status of check_rbac; Rbac/Granted.antt says what is to be granted.
--   * alert_manager.py: Alerts.antt (Alert, Silence, Route, ChannelConfig: validation, matching),
--     Alerts/Router.antt (AlertRouter), Alerts/Delivery.antt (DeliveryEngine), Alerts/Store.antt
--     (AlertStore) and Alerts/Manager.antt (SilenceManager, AlertManager), which composes them: an
--     alert is stored as silenced if a silence matches, else it is stored, routed and delivered.
--   * windowed.py, WindowedStreamLog: Windowed.antt (the ring, its constructor and the loops) and
--     Windowed/Methods.antt (`rotate` is _rotate, `rebuild_merged` is _rebuild_merged, the writes
--     and the reads). It holds StreamLogs of Log.antt, one for each bucket and the merged one.
--   * cluster.py, ClusterManager: Cluster.antt (receive_snapshot, the deletions and their tombstones,
--     get_merged_stream) on the dictionaries of Cluster/Origins.antt. The snapshots of the peers
--     are StreamLogs, merged by `merge` of Log.antt; Cluster/Members.antt is _merge_membership.
-- Prelude holds what they share: lists, integers, dictionaries as association lists in the order
-- of insertion, methods that change an object and may raise (Prelude/Exec.antt), and the abstract
-- `float` (Prelude/Float.antt). Tests runs the theorems at concrete inputs.
--
-- Conventions. A method is a function from the object to its result and the object afterwards, so
-- that what was written before a raise stays visible. Python's integers are unbounded; where the
-- source masks to 64 bits the model writes the remainder. A `str` carries its UTF-8 bytes where it
-- is hashed. `float` is a parameter: its operations are a record, and the few laws of IEEE 754 that
-- a proof needs are the fields of `FloatOrder`, `FloatArith` and `FloatKeys`, true of NaN and of the
-- infinities too; those of `FloatKeys` take `math.log` to be monotone. An extremum that
-- `from_dict` reads as an `int` counts as its `float`. The clock is a parameter, too: the n-th
-- reading is `time n` or `clock n`, and nothing is assumed of it but that the monotonic clock of a
-- window never goes back, and that the time at which an alert is resolved is finite.
-- What a post to a channel does is the
-- parameter `post`, a text if it raises.
-- `str.strip` is the parameter `blank`, `len` of a text the parameter `size`, and the HMAC of an
-- audit event the parameter `sign`. Fuel: the 64 rounds of `bit_length`, one for
-- each bit of a word, and the loop of `_rotate`, which gets one round for each bucket: it is not
-- entered when as many durations have passed, so that it ends earlier.
--
-- Not modelled: the timeouts and the digests of the cluster, the payloads of the alert channels,
-- JSON texts and files, the sinks of the audit log, the command lines, locks (the methods run one
-- after the other), and the other modules of the package.
pub mod Prelude
pub mod Sketch
pub mod Log
pub mod RateLimit
pub mod Rbac
pub mod Alerts
pub mod Windowed
pub mod Cluster
pub mod Tests
