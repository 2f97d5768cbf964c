-- ===== src/UrlShortener/Server.antt =====
-- `RangeAllocator` and `URLShortener` of 11_case_studies/01_url_shortener.py: servers, each with its batch
-- of ids, that share the allocator, the database and the cache. A batch is the rest of its range.
use learn_system_design.Prelude.{
  ℕ, zero, suc, ◌+◌, ◌%◌, Bool, true, false, Option, none, some, List, [], ◌∷◌, ltb, if◌then◌else◌,
  ite,
}
use learn_system_design.Prelude.Dict.{Dict, get, put}
use learn_system_design.UrlShortener.Base62.{base62_encode, code_len, space, rjust}
use learn_system_design.UrlShortener.Scramble.{scramble}
use learn_system_design.UrlShortener.Cache.{LruCache, lookup, store}

pub record Allocator : Type 0 where
  pub next_start : ℕ
  pub range_size : ℕ

pub record Batch : Type 0 where
  pub next : ℕ
  pub stop : ℕ

-- `RangeAllocator(range_size)`
unfoldable pub range_allocator : ℕ → Allocator
range_allocator range_size = record { next_start = 1; range_size = range_size }

-- `iter(())`
unfoldable pub no_ids : Batch
no_ids = record { next = 0; stop = 0 }

-- `iter(self.allocator.get_range())`
unfoldable pub get_range : Allocator → Allocator × Batch
get_range a =
    let stop = a.next_start + a.range_size in
    (record a { next_start = stop }, record { next = a.next_start; stop = stop })

-- `next(ids)`; `none` is `StopIteration`
unfoldable pub take_next : Batch → Option (ℕ × Batch)
take_next b = if ltb b.next b.stop then some (b.next, record b { next = b.next + 1 }) else none

-- What is left of `_next_id` after a new range: a `StopIteration` of an empty one leaves the call.
unfoldable pub from_new : Allocator → Batch → Option (ℕ × Batch) → Option ℕ × Allocator × Batch
from_new a b none = (none, a, b)
from_new a b (some (id, b')) = (some id, a, b')

-- `_next_id`
unfoldable pub next_id : Allocator → Batch → Option ℕ × Allocator × Batch
unfolding take_next get_range from_new
next_id a b = elim (take_next b) [
  | none ↦ (let (a', b') = get_range a in from_new a' b' (take_next b'))
  | some (id, b') ↦ (some id, a, b')
]

-- A short code is a text: the list of its code points.
abbrev pub Code : Type 0
Code = List ℕ

pub record World (U : Type 0) : Type 0 where
  pub db : Dict Code U
  pub cache : LruCache Code U

pub data Answer (U : Type 0) : Type 0 where
  not_found : Answer U
  redirect : U → Answer U

-- `if alias`: a missing or an empty one is none.
unfoldable pub chosen : Option Code → Option Code
chosen none = none
chosen (some []) = none
chosen (some (c ∷ alias)) = some (c ∷ alias)

module _ {U : Type 0} (dec : Discrete Code) where
  -- The end of `shorten`: `self.db[code] = long_url`
  unfoldable pub save : Code → U → World U → World U
  save code url w = record w { db = put dec code url w.db }

  -- `shorten` with an alias; `none` is the `ValueError`
  unfoldable pub shorten_alias : Code → U → World U → Option (Code × World U)
  unfolding save
  shorten_alias alias url w = elim (get dec alias w.db) [
    | none ↦ some (alias, save alias url w)
    | some taken ↦ none
  ]

  -- The end of `resolve` after the database is asked, and after the cache is.
  unfoldable pub from_db : Code → World U → Option U → Answer U × World U
  from_db code w none = (not_found, w)
  from_db code w (some url) = (redirect url, record w { cache = store dec code url w.cache })

  unfoldable pub from_cache : Code → World U → Option U → Answer U × World U
  unfolding from_db
  from_cache code w none = from_db code w (get dec code w.db)
  from_cache code w (some url) = (redirect url, w)

  -- `resolve`
  unfoldable pub resolve : Code → World U → Answer U × World U
  unfolding from_cache
  resolve code w =
      let (cached, cache) = lookup dec code w.cache in
      from_cache code (record w { cache = cache }) cached

-- `base62_encode(scramble(id)).rjust(CODE_LEN, "0")`
unfoldable pub code_of : (Key : Type 0) → (Key → ℕ → ℕ) → List Key → ℕ → Option Code
code_of Key digest keys id = elim (scramble Key digest keys id) [
  | none ↦ none
  | some n ↦ some (rjust code_len (base62_encode n))
]

pub record App (U : Type 0) : Type 0 where
  pub allocator : Allocator
  pub batch : Batch
  pub world : World U

module _ {U : Type 0} (dec : Discrete Code) (Key : Type 0) (digest : Key → ℕ → ℕ)
    (keys : List Key) where
  -- `shorten` after the code of a new id is known; `none` is an id with no code
  unfoldable pub saved : Option Code → U → App U → Option (Code × App U)
  unfolding save
  saved none url a = none
  saved (some code) url a = some (code, record a { world = save dec code url a.world })

  -- `shorten` after a new id is drawn; `none` is the `StopIteration` of an empty range
  unfoldable pub shorten_id : Option ℕ → U → App U → Option (Code × App U)
  unfolding saved code_of
  shorten_id none url a = none
  shorten_id (some id) url a = saved (code_of Key digest keys id) url a

  unfoldable pub with_alias : Option (Code × World U) → App U → Option (Code × App U)
  with_alias none a = none
  with_alias (some (code, w)) a = some (code, record a { world = w })

  -- `shorten`: the code of the short link and the server after it; `none` is a raised exception
  unfoldable pub shorten : Option Code → U → App U → Option (Code × App U)
  unfolding chosen shorten_alias with_alias shorten_id
  shorten alias url a = elim (chosen alias) [
    | some code ↦ with_alias (shorten_alias dec code url a.world) a
    | none ↦
        (let (id, allocator, batch) = next_id a.allocator a.batch in
          shorten_id id url (record a { allocator = allocator; batch = batch }))
  ]

module _ {U : Type 0} (dec : Discrete Code) (url_dec : Discrete U) (digest : U → ℕ → ℕ) where
  -- `base62_encode(... % SPACE).rjust(CODE_LEN, "0")`, of the digest of a url at an attempt
  unfoldable pub hashed : U → ℕ → Code
  hashed url attempt = rjust code_len (base62_encode (digest url attempt % space))

  -- `db[code] != long_url`, of a code in the database
  unfoldable pub is_other : U → Option U → Bool
  is_other url none = false
  is_other url (some u) = ite (url_dec u url) false true

  -- `hash_based_code`; `none` is that the fuel runs out before an attempt without a collision
  unfoldable pub hash_based_code : ℕ → U → Dict Code U → ℕ → Option Code
  unfolding is_other
  hash_based_code zero url db attempt = none
  hash_based_code (suc fuel) url db attempt =
      elim (is_other url (get dec (hashed url attempt) db)) [
        | true ↦ hash_based_code fuel url db (attempt + 1)
        | false ↦ some (hashed url attempt)
      ]
