-- ===== src/Lib.antt =====
-- mediadiff compares two media files: an analyzer turns each file into a fingerprint of
-- measurements, the comparison engine pairs the measurements by check and scope, a comparator per
-- semantic turns each pair into a finding, and a policy, resolved from the check registry, a
-- profile, mediadiff.toml and the command line, gives each finding its severity and each check its
-- tolerance. Verdicts are computed without floating point, on exact rational numbers.
--
-- Files and the code they are about, with paths from the repository's root:
--   Base: Boolean tests, lists and integers over native numbers, texts as lists of bytes, and
--     `mediadiff::expected` with the error kinds of src/core/error.h.
--   Core/CheckedArith: detail::checked_mul, checked_add, checked_sub, checked_negate and
--     checked_div of src/core/rational.h. An int64_t is an integer with its bounds as a predicate;
--     an operation that reports overflow returns nothing.
--   Core/Ticks: Ticks, compare_ticks and compare_ticks_checked of src/core/rational.h.
--   Core/Accum: Int128Accum of src/core/rational.h, in its __int128 arm: add_product, add,
--     try_narrow, try_isqrt and try_reduce_ratio. The square root runs its fixed 64 rounds, and
--     Euclid's loop has one round more than its second argument, which is enough.
--   Core/ExactInt: the 256-bit integer of src/core/exact_int.h, limb by limb: from_i64, try_mul,
--     try_add, try_sub, compare and to_decimal.
--     A magnitude of 256 bits has at most 78 decimal digits, the rounds of the decimal loop.
--   Core/Registry: the tables of src/core/registry.h: enumerations and their texts, CheckDef,
--     severity_for, tolerance_for, find and resolve_alias.
--   Core/Glob: src/core/glob.cpp: splitting, diagnosis, matching of ids and of paths, selection.
--     Glob/Matches states the grammar as a relation that does not mention the matcher.
--   Core/Tolerance: parse_tolerance of src/core/tolerance.cpp.
--   Core/Profiles: src/core/profiles.cpp: profile names and the transform expectation.
--   Core/Model: the values, measurements and findings of src/core/value.h and src/core/model.h.
--   Core/Policy: src/core/policy.cpp: the four layers in Policy.antt and Policy/Resolve.antt.
--   Compare: src/compare. The keys and maps of engine.cpp are in Compare/Engine, its loop in
--     Compare/Findings and Compare/Pairs, and src/core/container_family.cpp in Compare/Family. The
--     loop takes the comparator of each semantic as an argument, as the code takes it from
--     comparator_for; what it relies on is IsComparator of Compare.antt.
--     The comparators: presence.cpp, state.cpp and set.cpp in Compare/Simple, exact.cpp in
--     Compare/Exact over the equality of values in Compare/Values, tol.cpp in Compare/Tol over the
--     exact threshold tests of Compare/Verdict, dist.cpp in Compare/Dist, span.cpp in
--     Compare/Spans, and hash.cpp in Compare/Divergence and Compare/Hash. Compare/Semantics is
--     comparator_for. A call that throws has the outcome `thrown`. The sort of the spans is a
--     parameter, of which SortsSpans of Compare/Spans/Verdict says what the code relies on.
--   Timeline: src/analyzers/timeline: unwrap.cpp in Timeline/Unwrap and Timeline/Views, the counts
--     of monotonic.cpp in Timeline/Monotonic, the first presentation, the common origin and the
--     packet durations of start_duration.cpp in Timeline/Durations, its stream scopes in
--     Timeline/Scopes, and detect_jumps of discontinuities.cpp in Timeline/Jumps. The packets of
--     src/probe/packet_scan.h are a list of records.
--   Probe: src/probe/cadence.cpp: the grid test in Probe/Cadence, the intervals and counts in
--     Probe/Cadence/Timestamps, derive_cadence in Probe/Cadence/Derive.
--   Report: src/report/model.cpp and src/cli/exit_code.cpp: the summary and exit code in Report.antt,
--     the loop that deals the findings to the groups in Report/Deal, the report and the corpus in
--     Report/Build; Report/Named says by their names which group an id is of. A count is a natural number: it would take 2^31
--     findings to leave an int.
--   Tests: runs on concrete inputs.
--
-- Correspondence: a function keeps its name, a lambda or a loop in a function is a function of its
-- own beside it, and an output parameter with a Boolean result is an Option. A string is its list
-- of bytes. `std::sort` of override blocks, samples, packets and
-- timestamps is an insertion sort.
--
-- Not modelled: the media libraries and the code that calls them (src/probe and src/analyzers,
-- apart from what Timeline and Probe name), the JSON and TOML documents, the terminal and file
-- output, threads, and the MSVC arm of Int128Accum. nlohmann::json, fmt and binary64 arithmetic are
-- the record `Vendor` of Core/Model.
pub mod Base
pub mod Core
pub mod Compare
pub mod Timeline
pub mod Probe
pub mod Report
pub mod Tests
