-- ===== src/Users/Tests.antt =====
-- target_spw/passwordList.c on small lists, and the theorems there.
use crypto_jasmine.Base.{[], ◌∷◌, ℕ, ◌≡◌, refl, arith, true, false, none, some, upd}
use crypto_jasmine.Users.List.{
  State, Heap, Malloc, new_node, check_if_user_exists, add_read_permissions, add_write_permissions,
  remove_read_permissions, remove_write_permissions, check_read_permissions,
  check_write_permissions, get_user_password_pointer, add_new_user, remove_user,
}
use crypto_jasmine.Users.Permissions.{users-not_found, remove_user-faults}
use crypto_jasmine.Users.Cycle.{one_user, two_users, add_new_user-endless}

-- Two addresses that `malloc` can give.
abbrev malloc : Malloc
malloc h = elim (h 1) [ none ↦ 1 | some _ ↦ 2 ]

abbrev empty : Heap
empty = λ a. none

abbrev single : Heap
single = upd empty 1 (some (new_node 70 80 0 0))

add_new_user-endless_example :
    (s : State) × (two_users malloc 9 70 80 71 81 empty ≡ some (true, s))
    × ((steps w : ℕ) → check_if_user_exists steps w s ≡ none)
    × ((steps w r : ℕ) → add_new_user malloc steps w r s ≡ none)
add_new_user-endless_example =
    add_new_user-endless malloc 8 70 80 71 81 empty (omega arith, refl) (omega arith, refl)

users-not_found_example :
    (check_if_user_exists 9 70 (one_user 1, single) ≡ some false)
    × (add_read_permissions 9 70 3 (one_user 1, single) ≡ some false)
    × (add_write_permissions 9 70 3 (one_user 1, single) ≡ some false)
    × (remove_read_permissions 9 70 3 (one_user 1, single) ≡ some false)
    × (remove_write_permissions 9 70 3 (one_user 1, single) ≡ some false)
    × (check_read_permissions 9 70 3 (one_user 1, single) ≡ some false)
    × (check_write_permissions 9 70 3 (one_user 1, single) ≡ some false)
    × (get_user_password_pointer 9 70 (one_user 1, single) ≡ some 0)
users-not_found_example =
    users-not_found 9 70 3 (one_user 1) single (1 ∷ [])
      (refl, omega arith, (new_node 70 80 0 0, refl, refl)) (omega arith)

remove_user-faults_example : remove_user 9 70 (one_user 1, single) ≡ none
remove_user-faults_example = remove_user-faults 9 70 (one_user 1) single refl (omega arith)
