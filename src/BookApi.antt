-- ===== src/BookApi.antt =====
-- 02_networking/03_http_and_api_design.py: the handlers of `BookAPI` over its global tables. A request is given with
-- its path taken apart and its numbers read, which are natural; a body is its title, if it has one. A
-- handler that raises sends no response. Each handler holds the lock, so requests come one after the other.
pub mod Paging
pub mod Pages
mod Tests
use learn_system_design.Prelude.{
  ℕ, zero, suc, ◌+◌, Bool, true, false, Option, none, some, List, [], ◌∷◌, ◌++◌, map, take, length,
  ltb, leb, ◌==◌, if◌then◌else◌, min, ℕ_discrete, ite,
}
use learn_system_design.Prelude.Dict.{Dict, get, put, remove}

pub record Book (T : Type 0) : Type 0 where
  pub id : ℕ
  pub title : T

-- `BOOKS`, `NEXT_ID` and `IDEMPOTENCY_KEYS`; what a key keeps beside a book is always the status 201.
pub record Tables (T K : Type 0) : Type 0 where
  pub books : Dict ℕ (Book T)
  pub next_id : ℕ
  pub idempotency_keys : Dict K (Book T)

pub record Page (T : Type 0) : Type 0 where
  pub items : List (Book T)
  pub next_cursor : Option ℕ

pub data Response (T H : Type 0) : Type 0 where
  listed : Page T → Response T H
  shown : Book T → H → Response T H
  not_modified : H → Response T H
  created : Book T → Response T H
  replayed : Book T → Response T H
  replaced : Book T → Response T H
  deleted : Response T H
  title_required : Response T H
  no_such_book : Response T H
  not_found : Response T H

-- The status that `_send` is given.
unfoldable pub status : {T H : Type 0} → Response T H → ℕ
status (listed page) = 200
status (shown book etag) = 200
status (not_modified etag) = 304
status (created book) = 201
status (replayed book) = 201
status (replaced book) = 200
status deleted = 204
status title_required = 400
status no_such_book = 404
status not_found = 404

-- What a client asks for.
pub data Request (T K H : Type 0) : Type 0 where
  get_page : Option ℕ → Option ℕ → Request T K H
  get_book : ℕ → Option H → Request T K H
  get_other : Request T K H
  post_book : Option K → Option T → Request T K H
  put_book : ℕ → Option T → Request T K H
  delete_book : ℕ → Request T K H

-- `[i for i in BOOKS if i > after]`
unfoldable pub ids_above : {T : Type 0} → ℕ → Dict ℕ (Book T) → List ℕ
ids_above after [] = []
ids_above after ((i, book) ∷ books) =
    let rest = ids_above after books in if ltb after i then i ∷ rest else rest

-- `sorted`
unfoldable pub insert : ℕ → List ℕ → List ℕ
insert x [] = x ∷ []
insert x (y ∷ ys) = let rest = insert x ys in if ltb y x then y ∷ rest else x ∷ y ∷ ys

unfoldable pub sorted : List ℕ → List ℕ
unfolding insert
sorted [] = []
sorted (x ∷ xs) = insert x (sorted xs)

unfoldable pub cons_found : {T : Type 0} → Option (Book T) → List (Book T) → List (Book T)
cons_found none books = books
cons_found (some book) books = book ∷ books

-- `[BOOKS[i] for i in ids]`; every id is a key.
unfoldable pub books_at : {T : Type 0} → List ℕ → Dict ℕ (Book T) → List (Book T)
unfolding cons_found
books_at [] books = []
books_at (i ∷ ids) books = cons_found (get ℕ_discrete i books) (books_at ids books)

-- `ids[-1]`
unfoldable pub last_of : List ℕ → Option ℕ
last_of [] = none
last_of (i ∷ []) = some i
last_of (i ∷ j ∷ ids) = last_of (j ∷ ids)

-- The page, by whether it is full and what its last id is; a full page with no last id raises.
unfoldable pub page_with : {T : Type 0} → Bool → Option ℕ → List (Book T) → Option (Page T)
page_with true none items = none
page_with true (some last) items = some (record { items = items; next_cursor = some last })
page_with false last items = some (record { items = items; next_cursor = none })

-- `do_GET` of a list, with the limit at hand
unfoldable pub page_of : {T : Type 0} → List ℕ → ℕ → Dict ℕ (Book T) → Option (Page T)
unfolding page_with last_of books_at
page_of ids limit books = page_with (length ids == limit) (last_of ids) (books_at ids books)

unfoldable pub or_default : ℕ → Option ℕ → ℕ
or_default n none = n
or_default n (some m) = m

-- `do_GET` of a list
unfoldable pub list_books : {T : Type 0} → Option ℕ → Option ℕ → Dict ℕ (Book T) → Option (Page T)
unfolding page_of sorted ids_above or_default
list_books after limit books =
    let n = min (or_default 2 limit) 100 in
    page_of (take n (sorted (ids_above (or_default 0 after) books))) n books

module _ {T H : Type 0} (dec_etag : Discrete H) (etag : Book T → H) where
  unfoldable pub shown_unless : Book T → Option H → Response T H
  shown_unless book none = shown book (etag book)
  shown_unless book (some old) =
      ite (dec_etag old (etag book)) (not_modified (etag book)) (shown book (etag book))

  -- `do_GET` of a book
  unfoldable pub show_book : Option (Book T) → Option H → Response T H
  unfolding shown_unless
  show_book none if_none_match = no_such_book
  show_book (some book) if_none_match = shown_unless book if_none_match

unfoldable pub remember :
    {T K : Type 0} → Discrete K → Option K → Book T → Dict K (Book T) → Dict K (Book T)
remember dec none book keys = keys
remember dec (some key) book keys = put dec key book keys

unfoldable pub remembered :
    {T K : Type 0} → Discrete K → Option K → Dict K (Book T) → Option (Book T)
remembered dec none keys = none
remembered dec (some key) keys = get dec key keys

module _ {T K H : Type 0} (dec : Discrete K) where
  -- `do_POST`, when no response is remembered
  unfoldable pub create : Option K → Option T → Tables T K → Tables T K × Response T H
  unfolding remember
  create key none db = (db, title_required)
  create key (some title) db =
      let book : Book T = record { id = db.next_id; title = title } in
      (
        record {
          books = put ℕ_discrete db.next_id book db.books;
          next_id = db.next_id + 1;
          idempotency_keys = remember dec key book db.idempotency_keys;
        },
        created book,
      )

  unfoldable pub replay_or :
      Option (Book T) → Option K → Option T → Tables T K → Tables T K × Response T H
  unfolding create
  replay_or (some book) key title db = (db, replayed book)
  replay_or none key title db = create key title db

  -- `do_POST`
  unfoldable pub post : Option K → Option T → Tables T K → Tables T K × Response T H
  unfolding replay_or remembered
  post key title db = replay_or (remembered dec key db.idempotency_keys) key title db

-- `do_PUT`; a body with no title raises.
unfoldable pub replace_book :
    {T K H : Type 0} → ℕ → Option T → Tables T K → Tables T K × Option (Response T H)
replace_book {T} {K} {H} id none db = (db, none)
replace_book {T} {K} {H} id (some title) db =
    let book : Book T = record { id = id; title = title } in
    (record db { books = put ℕ_discrete id book db.books }, some (replaced book))

unfoldable pub listing : {T H : Type 0} → Option (Page T) → Option (Response T H)
listing none = none
listing (some page) = some (listed page)

module _ {T K H : Type 0} (dec : Discrete K) (dec_etag : Discrete H) (etag : Book T → H) where
  -- The handlers, by method and path; `none` is a handler that raised.
  unfoldable pub handle : Request T K H → Tables T K → Tables T K × Option (Response T H)
  unfolding list_books show_book post replace_book listing
  handle (get_page after limit) db = (db, listing (list_books after limit db.books))
  handle (get_book id if_none_match) db =
      (db, some (show_book dec_etag etag (get ℕ_discrete id db.books) if_none_match))
  handle get_other db = (db, some not_found)
  handle (post_book key title) db =
      let (db', response) = post dec key title db in (db', some response)
  handle (put_book id title) db = replace_book id title db
  handle (delete_book id) db = (record db { books = remove ℕ_discrete id db.books }, some deleted)

  -- Requests, one after the other.
  unfoldable pub handle_all : List (Request T K H) → Tables T K → Tables T K
  handle_all [] db = db
  handle_all (request ∷ requests) db = handle_all requests (handle request db).0

unfoldable pub new_tables : {T K : Type 0} → Tables T K
new_tables = record { books = []; next_id = 1; idempotency_keys = [] }

unfoldable pub append_items :
    {T : Type 0} → List (Book T) → Option (List (Book T)) → Option (List (Book T))
append_items items none = none
append_items items (some more) = some (items ++ more)

-- `while cursor is not None`
unfoldable pub go_on :
    {T : Type 0} → List (Book T) → Option ℕ → (ℕ → Option (List (Book T))) → Option (List (Book T))
unfolding append_items
go_on items none next = some items
go_on items (some cursor) next = append_items items (next cursor)

-- What a round of the client's loop makes of a page; there is none if the server raised.
unfoldable pub follow :
    {T : Type 0} → Option (Page T) → (ℕ → Option (List (Book T))) → Option (List (Book T))
unfolding go_on
follow none next = none
follow (some page) next = go_on page.items page.next_cursor next

-- The demo's loop over the pages, from a cursor on, for at most so many rounds: the items of all pages.
unfoldable pub all_items : {T : Type 0} → ℕ → Dict ℕ (Book T) → ℕ → ℕ → Option (List (Book T))
unfolding list_books follow
all_items limit books zero cursor = none
all_items limit books (suc fuel) cursor =
    follow (list_books (some cursor) (some limit) books) (all_items limit books fuel)
