-- ===== src/Lib.antt =====
-- The Monomyth client: a library that a game client loads in place of dinput8.dll and that lets one
-- character hold several classes.
--
-- The parts, and how they interact. The hook manager (src/hook_manager.cpp) patches the client and
-- calls the observers with the payloads that the server sends. The observers keep what the payloads
-- say: the character's classes, skills and pets (src/server_auth_stats_observer.cpp), the classes of
-- other characters (src/remote_multiclass_identity.cpp) and the pets of each owner
-- (src/multipet_spawn_observer.cpp, which asks the first for the focused pet). The hooks then answer
-- the client's questions by rules that are functions of that state: the identity rules
-- (src/multiclass_identity.cpp), the level of a spell (src/spell_level_selection.cpp), the skills
-- shown (src/multiclass_skill_visibility.cpp) and the combat abilities
-- (src/multiclass_combat_ability.cpp). The policy (src/spell_usability_discovery_policy.cpp) decides
-- whether a place found in the client's code may be used.
--
-- The files:
-- - Prelude: the shared names; Prelude/Lists: lists on the native numbers; Prelude/Tests: Boolean
--   tests; Prelude/Bits: `&` and `|` by binary digits; Prelude/Int: the values of an `int`.
-- - Wire: bytes in memory, words and C strings, and texts without regard to case (Names, Fold), for the payloads
--   of src/remote_multiclass_identity.cpp and src/multipet_spawn_observer.cpp.
-- - Identity: src/multiclass_identity.cpp. Mask has the constants and the tests of a mask, Order
--   BuildOrderedClassIdList, Display the texts, Hands the hand conflict rules; Membership, Closed
--   and Format have the theorems.
-- - AuthStats: src/server_auth_stats_observer.cpp. Read has SafeCopy and the reads, Parse
--   ParsePayload, Observe the handler, with its atomics as one record; Words, Tracking, RoundTrip,
--   Acceptance and State have the theorems.
-- - RemoteIdentity: src/remote_multiclass_identity.cpp. Parse has ParsePayload, Store the entries
--   and their lookup; RoundTrip, Counts, Locality, Lookup and Keys have the theorems.
-- - Spells: Level is src/spell_level_selection.cpp and Policy is
--   src/spell_usability_discovery_policy.cpp; Lowest has the theorems.
-- - Skills: src/multiclass_skill_visibility.cpp (Visibility; theorems in Masks).
-- - Combat: src/multiclass_combat_ability.cpp (Ability; theorems in Classes and Distinct).
-- - Pets: src/multipet_spawn_observer.cpp. Parse has ParseSingleSpawnPayload, Roster the two
--   observers, Window GetSnapshot; RoundTrip, Order, Reach, Report, Delete and Find have the
--   theorems.
-- - Cache: src/multiclass_cache.cpp. Hex has ParseHexU32, Lines ParseCacheEntries, with the lines
--   and fields of the text as lists of bytes, Store the writer, the lookups and
--   StoreCharacterClassMask, with the file's bytes as the state; Value, Names, Text, RoundTrip,
--   Lookup, Stored and Folded have the theorems.
-- - Patch: the patches of the client's code in src/hook_manager.cpp. Jump has the relative jumps and
--   calls and the functions that read them, Decode the lengths of instructions, Detour
--   InstallInlineDetour and RemoveInlineDetour, Sites the callsite and byte patches; Resolve, Length,
--   Memory, Placed, Install, Removed, Failed and Undo have the theorems. Memory is a function from
--   addresses to bytes; what VirtualAlloc, VirtualProtect and ReadProcessMemory answer is a
--   parameter.
-- - Retry: the deferred work of src/hook_manager.cpp. State has a retry, Ensure
--   TryEnsureMulticlassCasterUiAccessForAssignedMask, Pending the two retries and the rearming in a
--   new zone, Notify NotifyServerAuthStatsUpdated and the pending cache file; Bounded, Live and Cached
--   have the theorems. What the client's memory and windows answer is a parameter of each call.
-- - Client: the client's structures in src/hook_manager.cpp. Read has the reads of the local player's
--   classes, Override the temporary class, Best EvaluateBestAuthoritativeSkillsWindowSkillValue;
--   Originals, Restored, Compare, Asked and Largest have the theorems. Memory is a function from addresses to bytes that
--   may fault; the module's base, VirtualProtect and the client's function are parameters. The list
--   of class records is read with 256 nodes of fuel, which is the source's own bound.
-- Each Tests module has runs and uses at concrete inputs.
--
-- A global is a field of a state that each operation takes and returns; a pointer that may be null
-- is an option; a function keeps its source's name in lower case. Offsets and counters wrap at their
-- width, which is written out. Every loop is a recursion on what is left of it (entries, bytes
-- before the payload's end, class ids up to 16, table rows, hops); the loop of CalculatePatchLength
-- has six rounds of fuel, enough for five instructions of one byte and the test that ends it.
--
-- Not modelled: the locks (calls come one after the other), the text of log lines, and the parts
-- that read the client's structures, draw in its windows or call at its addresses: the hooks
-- themselves and their traces, which are the rest of src/hook_manager.cpp,
-- src/packet_observer.cpp, src/receive_dispatch_discovery.cpp, src/spell_usability_discovery.cpp,
-- src/class_display_discovery.cpp, src/fingerprint.cpp, src/monomyth_pet_window.cpp,
-- src/dinput_proxy.cpp, src/dllmain.cpp, src/logger.cpp, src/runtime_capabilities.cpp,
-- src/opcode_reference.cpp and the paths and the configuration file of src/multiclass_cache.cpp. Nor
-- is a write that faults after VirtualProtect made its region writable, which the source catches as a
-- structured exception, nor a fault in a payload of src/remote_multiclass_identity.cpp or
-- src/multipet_spawn_observer.cpp, which is a byte at each offset.
pub mod Prelude
pub mod Identity
pub mod Wire
pub mod AuthStats
pub mod RemoteIdentity
pub mod Spells
pub mod Skills
pub mod Combat
pub mod Pets
pub mod Cache
pub mod Patch
pub mod Retry
pub mod Client
