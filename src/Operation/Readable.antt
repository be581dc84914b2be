-- ===== src/Operation/Readable.antt =====
-- How long a cached result can be read.
use trex_dkg.Prelude.{
  ℕ, ◌+◌, ◌<◌, ◌≤◌, ◌≡◌, ◌≢◌, ◌⊎◌, inl, inr, ◌∙◌, String, true, Option, none, some, List, [], ◌∷◌,
  lookup, lookup-insert_self, lookup-insert_ne, lookup-erase_ne, distinct, distinct-insert,
  distinct-erase, leb, dec_lt, if◌then◌else◌, arith,
}
use trex_dkg.Operation.Data.{IdStatus, ErrorType, Payload, CacheEntry, World}
use trex_dkg.Operation.Ids.{
  update_operation_id_status, cache_operation_id_data, get_cached_operation_id_data,
}
use trex_dkg.Operation.Cleaning.{cleanup_time, clean, live, lookup-keep_live, distinct-keep_live}

-- What happens to the caches: time passes, a result is cached, an operation reports a status (with an
-- error message, its result is dropped), and the cleaner runs.
pub data Happening : Type 0 where
  passes : ℕ → Happening
  caches : ℕ → Payload → Happening
  reports : ℕ → ℕ → IdStatus → Option String → Option ErrorType → Happening
  cleans : Happening

module _ (byte_length : Payload → ℕ) where
  unfoldable pub happen : Happening → World → World
  happen (passes n) w = record w { now = w.now + n }
  happen (caches id p) w = cache_operation_id_data id p w
  happen (reports id b status m t) w = update_operation_id_status id b status m t w
  happen cleans w = clean byte_length w

  unfoldable pub happen_all : List Happening → World → World
  happen_all [] w = w
  happen_all (h ∷ hs) w = happen_all hs (happen h w)

-- Nothing else is cached, and no error reported, under an operation id.
abbrev pub Leaves : ℕ → Happening → Type 0
Leaves id (caches j p) = j ≢ id
Leaves id (reports j b status (some m) t) = j ≢ id
Leaves id _ = Unit

abbrev pub LeavesAll : ℕ → List Happening → Type 0
LeavesAll id [] = Unit
LeavesAll id (h ∷ hs) = Leaves id h × LeavesAll id hs

-- An entry, or one that a sweep has removed.
abbrev Near : CacheEntry → Option CacheEntry → Type 0
Near e x = (x ≡ none) ⊎ (x ≡ some e)

record Kept (id : ℕ) (e : CacheEntry) (w : World) : Type 0 where
  distinct_files : distinct w.files ≡ true
  distinct_memory : distinct w.memory_cache ≡ true
  file : Near e (lookup id w.files)
  memory : Near e (lookup id w.memory_cache)
  fresh : w.now ≤ e.timestamp + cleanup_time → lookup id w.files ≡ some e

live-Near :
    (e : CacheEntry) (now : ℕ) (x : Option CacheEntry) → Near e x → Near e (live now cleanup_time x)
live-Near e now x (inl h) = inl (ground (arith, h))
live-Near e now x (inr h) = rw h (elim (dec_lt (e.timestamp + cleanup_time) now) [
  | yes late ↦ inl (ground arith)
  | no on_time ↦ inr (ground arith)
])

live-late :
    (e : CacheEntry) (now : ℕ) (x : Option CacheEntry)
    → Near e x
    → e.timestamp + cleanup_time < now
    → live now cleanup_time x ≡ none
live-late e now x (inl h) late = ground (arith, h)
live-late e now x (inr h) late = ground (arith, h)

module _ (byte_length : Payload → ℕ) (id : ℕ) (e : CacheEntry) where
  clean-Kept : (w : World) → Kept id e w → Kept id e (clean byte_length w)
  unfolding clean
  clean-Kept w k = record {
    distinct_files = distinct-keep_live w.now cleanup_time w.files k.distinct_files;
    distinct_memory = distinct-keep_live w.now cleanup_time w.memory_cache k.distinct_memory;
    file =
        rw (lookup-keep_live id w.now cleanup_time w.files k.distinct_files)
          (live-Near e w.now _ k.file);
    memory =
        rw (lookup-keep_live id w.now cleanup_time w.memory_cache k.distinct_memory)
          (live-Near e w.now _ k.memory);
    fresh = λ h.
        lookup-keep_live id w.now cleanup_time w.files k.distinct_files ∙ ground (arith, k.fresh h);
  }

  happen-Kept :
      (h : Happening) (w : World) → Leaves id h → Kept id e w → Kept id e (happen byte_length h w)
  unfolding happen update_operation_id_status cache_operation_id_data
  happen-Kept (passes n) w l k = record {
    distinct_files = k.distinct_files;
    distinct_memory = k.distinct_memory;
    file = k.file;
    memory = k.memory;
    fresh = λ h. k.fresh (omega arith);
  }
  happen-Kept (caches j p) w l k =
      let x : CacheEntry = record { contents = p; timestamp = w.now } in
      record {
        distinct_files = distinct-insert j x w.files k.distinct_files;
        distinct_memory = distinct-insert j x w.memory_cache k.distinct_memory;
        file = rw (lookup-insert_ne j id x w.files l) k.file;
        memory = rw (lookup-insert_ne j id x w.memory_cache l) k.memory;
        fresh = λ h. lookup-insert_ne j id x w.files l ∙ k.fresh h;
      }
  happen-Kept (reports j b status none t) w l k = record {
    distinct_files = k.distinct_files;
    distinct_memory = k.distinct_memory;
    file = k.file;
    memory = k.memory;
    fresh = k.fresh;
  }
  happen-Kept (reports j b status (some m) t) w l k = record {
    distinct_files = distinct-erase j w.files k.distinct_files;
    distinct_memory = distinct-erase j w.memory_cache k.distinct_memory;
    file = rw (lookup-erase_ne j id w.files l) k.file;
    memory = rw (lookup-erase_ne j id w.memory_cache l) k.memory;
    fresh = λ h. lookup-erase_ne j id w.files l ∙ k.fresh h;
  }
  happen-Kept cleans w l k = clean-Kept w k

  happen_all-Kept :
      (hs : List Happening) (w : World)
      → LeavesAll id hs
      → Kept id e w
      → Kept id e (happen_all byte_length hs w)
  unfolding happen_all
  happen_all-Kept [] w l k = k
  happen_all-Kept (h ∷ hs) w l k =
      happen_all-Kept hs (happen byte_length h w) l.1 (happen-Kept h w l.0 k)

  read-Kept :
      (w : World)
      → Kept id e w
      → w.now ≤ e.timestamp + cleanup_time
      → get_cached_operation_id_data id w ≡ some e.contents
  unfolding get_cached_operation_id_data
  read-Kept w k h = elim k.memory [ inl gone ↦ ground (arith, k.fresh h) | inr here ↦ ground arith ]

  read-clean :
      (w : World)
      → Kept id e w
      → e.timestamp + cleanup_time < w.now
      → get_cached_operation_id_data id (clean byte_length w) ≡ none
  unfolding get_cached_operation_id_data clean
  read-clean w k h = ground (
    arith,
    lookup-keep_live id w.now cleanup_time w.files k.distinct_files,
    lookup-keep_live id w.now cleanup_time w.memory_cache k.distinct_memory,
    live-late e w.now (lookup id w.files) k.file h,
    live-late e w.now (lookup id w.memory_cache) k.memory h,
  )

  read_cleaned :
      (w : World)
      → Kept id e w
      → w.now ≤ e.timestamp + cleanup_time
      → get_cached_operation_id_data id (clean byte_length w) ≡ some e.contents
  unfolding clean
  read_cleaned w k h = read-Kept (clean byte_length w) (clean-Kept w k) h

module _ (byte_length : Payload → ℕ) where
  -- A result that is cached is read back for a day, and not at all by a read after the cleaning
  -- that follows: whatever other operations cache and report in the meantime, and however often the
  -- cleaner runs. No second result is cached, and no error is reported, under its operation id; the
  -- caches begin with each key once.
  pub readable_for_a_day :
      (id : ℕ) (p : Payload) (hs : List Happening) (w : World)
      → distinct w.files ≡ true
      → distinct w.memory_cache ≡ true
      → LeavesAll id hs
      → let w' = happen_all byte_length hs (cache_operation_id_data id p w) in
        get_cached_operation_id_data id (clean byte_length w')
        ≡ (if leb w'.now (w.now + cleanup_time) then some p else none)
  unfolding cache_operation_id_data
  readable_for_a_day id p hs w df dm l =
      let e : CacheEntry = record { contents = p; timestamp = w.now } in
      let w' : World = happen_all byte_length hs (cache_operation_id_data id p w) in
      let k : Kept id e w' =
        happen_all-Kept byte_length id e hs (cache_operation_id_data id p w) l (record {
          distinct_files = distinct-insert id e w.files df;
          distinct_memory = distinct-insert id e w.memory_cache dm;
          file = inr (lookup-insert_self id e w.files);
          memory = inr (lookup-insert_self id e w.memory_cache);
          fresh = λ h. lookup-insert_self id e w.files;
        }) in
      elim (dec_lt (w.now + cleanup_time) w'.now) [
        | yes late ↦ ground (arith, read-clean byte_length id e w' k late)
        | no on_time ↦ ground (arith, read_cleaned byte_length id e w' k (omega arith))
      ]
