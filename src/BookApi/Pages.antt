-- ===== src/BookApi/Pages.antt =====
-- What a client collects that follows the cursors.
use learn_system_design.Prelude.{
  ℕ, zero, suc, ◌-◌, ◌<◌, ◌≡◌, refl, true, false, Option, none, some, List, [], ◌∷◌, ◌++◌, take,
  drop, length, ◌==◌, min, arith, Bool-cases, inl, inr, ap, ◌∙◌, ℕ_discrete, take-append-drop,
  length-drop, length-take,
}
use learn_system_design.Prelude.Dict.{Dict, get}
use learn_system_design.Prelude.Dict.Unique.{AreUnique, put-AreUnique, remove-AreUnique}
use learn_system_design.BookApi.{
  Book, Tables, Request, get_page, get_book, get_other, post_book, put_book, delete_book,
  cons_found, books_at, last_of, page_with, page_of, or_default, list_books, create, remembered,
  replay_or, post, replace_book, handle, handle_all, new_tables, append_items, go_on, follow,
  all_items,
}
use learn_system_design.BookApi.Paging.{
  AreAbove, above_last, ids_from, ids_from-above, ids_from-AreAbove,
}

take_short : (n : ℕ) (xs : List ℕ) → (length (take n xs) == n) ≡ false → take n xs ≡ xs
take_short zero xs h = ground arith
take_short (suc n) [] h = refl
take_short (suc n) (x ∷ xs) h = ap (λ (l : List ℕ). x ∷ l) (take_short n xs (ground (arith, h)))

module _ {T : Type 0} where
  cons_found-append :
      (found : Option (Book T)) (xs ys : List (Book T))
      → cons_found found xs ++ ys ≡ cons_found found (xs ++ ys)
  unfolding cons_found
  cons_found-append none xs ys = refl
  cons_found-append (some book) xs ys = refl

  books_at-append :
      (xs ys : List ℕ) (books : Dict ℕ (Book T))
      → books_at xs books ++ books_at ys books ≡ books_at (xs ++ ys) books
  unfolding books_at
  books_at-append [] ys books = refl
  books_at-append (x ∷ xs) ys books =
      cons_found-append (get ℕ_discrete x books) (books_at xs books) (books_at ys books)
      ∙ ap (cons_found (get ℕ_discrete x books)) (books_at-append xs ys books)

  full_round :
      (n l : ℕ) (ids : List ℕ) (books : Dict ℕ (Book T)) (next : ℕ → Option (List (Book T)))
      → length ids ≡ n
      → last_of ids ≡ some l
      → follow (page_of ids n books) next ≡ append_items (books_at ids books) (next l)
  unfolding page_of page_with follow go_on
  full_round n l ids books next h e =
      let flag : (length ids == n) ≡ true = ground (arith, h) in rw (flag, e) refl

  last_round :
      (n : ℕ) (ids : List ℕ) (books : Dict ℕ (Book T)) (next : ℕ → Option (List (Book T)))
      → (length ids == n) ≡ false
      → follow (page_of ids n books) next ≡ some (books_at ids books)
  unfolding page_of page_with follow go_on
  last_round n ids books next h = rw h refl

  collected :
      (fuel limit m lo : ℕ) (books : Dict ℕ (Book T))
      → min limit 100 ≡ suc m
      → AreUnique ℕ_discrete books
      → length (ids_from lo books) < fuel
      → all_items limit books fuel lo ≡ some (books_at (ids_from lo books) books)
  unfolding all_items list_books or_default
  collected zero limit m lo books n u h = ground (arith, h)
  collected (suc fuel) limit m lo books n u h =
      let ids = ids_from lo books in
      let next = all_items limit books fuel in
      let page = take (suc m) ids in
      ap (λ k. follow (page_of (take k ids) k books) next) n
      ∙ elim (Bool-cases (length page == suc m)) [
        | inl e ↦
            (let full : length page ≡ suc m = ground arith in
              let (l, last, up, rest) = above_last m lo ids (ids_from-AreAbove lo books u) full in
              let tail : ids_from l books ≡ drop (suc m) ids =
                ids_from-above lo l books (omega (arith, up)) ∙ rest in
              let shorter : length (ids_from l books) < fuel = omega (
                arith,
                ap length tail,
                length-drop (suc m) ids,
                length-take (suc m) ids,
                full,
                h,
              ) in
              full_round (suc m) l page books next full last
              ∙ ap (append_items (books_at page books)) (collected fuel limit m l books n u shorter)
              ∙ (unfold append_items in
                  ap (λ (x : List (Book T)). some x)
                    (ap (λ t. books_at page books ++ books_at t books) tail
                      ∙ books_at-append page (drop (suc m) ids) books
                      ∙ ap (λ t. books_at t books) (take-append-drop (suc m) ids))))
        | inr e ↦
            last_round (suc m) page books next e
            ∙ ap (λ t. some (books_at t books)) (take_short (suc m) ids e)
      ]

module _ {T K H : Type 0} (dec : Discrete K) (dec_etag : Discrete H) (etag : Book T → H) where
  create-AreUnique :
      (found : Option (Book T)) (key : Option K) (title : Option T) (db : Tables T K)
      → AreUnique ℕ_discrete db.books
      → AreUnique ℕ_discrete (replay_or {H = H} dec found key title db).0.books
  unfolding replay_or create
  create-AreUnique (some book) key title db u = u
  create-AreUnique none key none db u = u
  create-AreUnique none key (some title) db u = put-AreUnique ℕ_discrete db.next_id _ db.books u

  handle-AreUnique :
      (request : Request T K H) (db : Tables T K)
      → AreUnique ℕ_discrete db.books
      → AreUnique ℕ_discrete (handle dec dec_etag etag request db).0.books
  unfolding handle post replace_book
  handle-AreUnique (get_page after limit) db u = u
  handle-AreUnique (get_book id old) db u = u
  handle-AreUnique get_other db u = u
  handle-AreUnique (post_book key title) db u =
      create-AreUnique (remembered dec key db.idempotency_keys) key title db u
  handle-AreUnique (put_book id none) db u = u
  handle-AreUnique (put_book id (some title)) db u = put-AreUnique ℕ_discrete id _ db.books u
  handle-AreUnique (delete_book id) db u = remove-AreUnique ℕ_discrete id db.books u

  handle_all-AreUnique :
      (requests : List (Request T K H)) (db : Tables T K)
      → AreUnique ℕ_discrete db.books
      → AreUnique ℕ_discrete (handle_all dec dec_etag etag requests db).books
  unfolding handle_all
  handle_all-AreUnique [] db u = u
  handle_all-AreUnique (request ∷ requests) db u =
      handle_all-AreUnique requests (handle dec dec_etag etag request db).0
        (handle-AreUnique request db u)

  -- After any requests to a new server, a client that asks for pages of any positive size and follows the
  -- cursors, from any cursor on, gets in more rounds than there are books above the cursor to the end,
  -- and has then every book above the cursor, once, in the order of the ids.
  pub all_items-books_at :
      (requests : List (Request T K H)) (limit cursor fuel : ℕ)
      → 0 < limit
      → length (ids_from cursor (handle_all dec dec_etag etag requests new_tables).books) < fuel
      → (all_items limit (handle_all dec dec_etag etag requests new_tables).books fuel cursor
          ≡ some (
              books_at
                (ids_from cursor (handle_all dec dec_etag etag requests new_tables).books)
                (handle_all dec dec_etag etag requests new_tables).books))
        × AreAbove cursor (ids_from cursor (handle_all dec dec_etag etag requests new_tables).books)
  all_items-books_at requests limit cursor fuel p h =
      let books = (handle_all dec dec_etag etag requests new_tables).books in
      let u : AreUnique ℕ_discrete books =
        handle_all-AreUnique requests new_tables (unfold new_tables in tt) in
      (
        collected fuel limit (min limit 100 - 1) cursor books (omega arith) u h,
        ids_from-AreAbove cursor books u,
      )
