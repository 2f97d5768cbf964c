-- ===== src/BookApi/Tests.antt =====
-- Requests to a new server, and what they answer.
use learn_system_design.Prelude.{ℕ, ◌≡◌, refl, arith, none, some, List, [], ◌∷◌, ℕ_discrete}
use learn_system_design.Prelude.Dict.{get, put, remove}
use learn_system_design.BookApi.{
  Book, Tables, Response, replayed, Request, get_book, post_book, delete_book, ids_above, insert,
  sorted, books_at, last_of, page_with, page_of, or_default, list_books, remember, create,
  remembered, replay_or, post, handle, handle_all, new_tables, all_items, show_book, shown_unless,
}
use learn_system_design.BookApi.Paging.{ids_from, AreAbove}
use learn_system_design.BookApi.Pages.{all_items-books_at}

abbrev etag : Book ℕ → ℕ
etag book = book.title

-- Three books, of which the second is deleted, and a retry with the key 9.
abbrev requests : List (Request ℕ ℕ ℕ)
requests =
    post_book none (some 100)
    ∷ post_book (some 9) (some 101)
    ∷ post_book (some 9) (some 101)
    ∷ post_book none none
    ∷ post_book none (some 102)
    ∷ delete_book 1
    ∷ []

abbrev db : Tables ℕ ℕ
db = handle_all ℕ_discrete ℕ_discrete etag requests new_tables

two_left : ids_from 0 db.books ≡ 2 ∷ 3 ∷ []
unfolding handle_all handle new_tables post replay_or remembered create remember get put remove
    ℕ_discrete ids_above sorted insert
two_left = refl

retry :
    (post {H = ℕ} ℕ_discrete (some 9) (some 555) db).1 ≡ replayed (record { id = 2; title = 101 })
unfolding handle_all handle new_tables post replay_or remembered create remember get put remove
    ℕ_discrete
retry = refl

changed :
    (handle ℕ_discrete ℕ_discrete etag (get_book 2 (some 101)) db).1
    ≡ some (Response.not_modified 101)
unfolding handle_all handle new_tables post replay_or remembered create remember get put remove
    ℕ_discrete show_book shown_unless
changed = refl

-- A limit of 0 asks an empty page for its last id.
no_limit : list_books none (some 0) db.books ≡ none
unfolding list_books page_of page_with or_default last_of
no_limit = refl

all_items-books_at_example :
    (all_items 1 db.books 3 0 ≡ some (books_at (ids_from 0 db.books) db.books))
    × AreAbove 0 (ids_from 0 db.books)
all_items-books_at_example =
    all_items-books_at ℕ_discrete ℕ_discrete etag requests 1 0 3 (omega arith) (
      unfold handle_all handle new_tables post replay_or remembered create remember get put remove
        ℕ_discrete ids_above sorted insert in
      omega arith)
