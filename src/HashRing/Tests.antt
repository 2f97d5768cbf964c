-- ===== src/HashRing/Tests.antt =====
-- A ring of three servers with two vnodes each, and the theorems at it.
use learn_system_design.Prelude.{ℕ, ◌+◌, ◌*◌, ◌≡◌, ◌≢◌, refl, some, [], ◌∷◌, ℕ_discrete, ◌⊎◌}
use learn_system_design.Prelude.Dict.{get, put}
use learn_system_design.HashRing.{
  Ring, new_ring, add_server, add_vnodes, add_vnode, insort, bisect_right, position_at, owner_of,
  get_server, remove_server, get_replicas, collect, with_server, is_in, modulo_server,
}
use learn_system_design.Prelude.{none, ◌≢◌, ◌⊎◌}
use learn_system_design.HashRing.Moves.{get_server-add_server, get_server-remove_server}

abbrev place : ℕ → ℕ → ℕ
place server i = 10 * server + 45 * i

abbrev hash : ℕ → ℕ
hash key = key

-- Servers 1, 2 and 3 at 10, 20, 30, 55, 65 and 75.
abbrev three : Ring ℕ
three = add_server place 3 1 (add_server place 2 1 (add_server place 1 1 (new_ring 2)))

wraps_around : get_server hash 80 three ≡ some 1
unfolding get_server add_server add_vnodes add_vnode insort new_ring bisect_right position_at
    owner_of get put ℕ_discrete
wraps_around = refl

replicas_of_25 : get_replicas ℕ_discrete hash 25 2 three ≡ 3 ∷ 1 ∷ []
unfolding get_replicas collect with_server is_in add_server add_vnodes add_vnode insort new_ring
    bisect_right position_at owner_of get put ℕ_discrete
replicas_of_25 = refl

-- Asked for no replicas, it gives every server.
replicas_of_none : get_replicas ℕ_discrete hash 25 0 three ≡ 3 ∷ 1 ∷ 2 ∷ []
unfolding get_replicas collect with_server is_in add_server add_vnodes add_vnode insort new_ring
    bisect_right position_at owner_of get put ℕ_discrete
replicas_of_none = refl

modulo_of_5 : modulo_server {S = ℕ} hash 5 (7 ∷ 8 ∷ 9 ∷ []) ≡ some 9
unfolding modulo_server
modulo_of_5 = refl

get_server-add_server_example :
    (get_server hash 27 (add_server place 4 1 three) ≡ some 4)
    ⊎ (get_server hash 27 (add_server place 4 1 three) ≡ get_server hash 27 three)
get_server-add_server_example = get_server-add_server hash place 27 4 1 three

third : get_server hash 25 three ≡ some 3
unfolding get_server add_server add_vnodes add_vnode insort new_ring bisect_right position_at
    owner_of get put ℕ_discrete
third = refl

get_server-remove_server_example :
    (get_server hash 25 (remove_server ℕ_discrete 1 three) ≢ some 1)
    × ((get_server hash 25 (remove_server ℕ_discrete 1 three) ≡ get_server hash 25 three)
        ⊎ ((get_server hash 25 three ≡ some 1) ⊎ (get_server hash 25 three ≡ none)))
get_server-remove_server_example = get_server-remove_server ℕ_discrete hash 25 1 three
