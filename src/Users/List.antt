-- ===== src/Users/List.antt =====
-- The list of target_spw/passwordList.c in the heap that it is in, and its operations. A pointer is
-- an address, NULL is 0, and the walk over the list has a bound on its steps: `none` is a walk that
-- goes on, or a pointer to nothing that is followed. The comparisons of user names are commented out
-- in the source, so the walks have no body.
use crypto_jasmine.Base.{
  ℕ, zero, suc, ◌+◌, ◌-◌, Bool, true, false, Option, none, some, ◌==◌, if◌then◌else◌, upd, ◌>>=◌,
}

pub record Node : Type 0 where
  pub user : ℕ
  pub password : ℕ
  pub banks_read_permissions : ℕ → ℕ
  pub banks_write_permissions : ℕ → ℕ
  pub next : ℕ
  pub previous : ℕ

-- The nodes that are allocated.
abbrev pub Heap : Type 0
Heap = ℕ → Option Node

-- `malloc`: an address, or 0
abbrev pub Malloc : Type 0
Malloc = Heap → ℕ

pub record PasswordList : Type 0 where
  pub head : ℕ
  pub tail : ℕ
  pub size : ℕ

abbrev pub State : Type 0
State = PasswordList × Heap

abbrev pub get_password_list_size : PasswordList → ℕ
get_password_list_size l = l.size

unfoldable pub create_password_list : PasswordList
create_password_list = record { head = 0; tail = 0; size = 0 }

abbrev pub new_node : (user password next previous : ℕ) → Node
new_node user password next previous =
    let zeros : ℕ → ℕ = λ i. 0 in
    record {
      user = user;
      password = password;
      banks_read_permissions = zeros;
      banks_write_permissions = zeros;
      next = next;
      previous = previous;
    }

-- The address of the new node, 0 if there is no memory
unfoldable pub create_node : Malloc → (user password next previous : ℕ) → Heap → ℕ × Heap
create_node malloc user password next previous h =
    if malloc h == 0
    then (0, h)
    else (malloc h, upd h (malloc h) (some (new_node user password next previous)))

-- The two writes to the node are lost with it.
unfoldable pub destroy_node : ℕ → Heap → Option Heap
destroy_node a h = h a >>= λ node. some (upd h a none)

-- `for (iter = a; iter != NULL; iter = iter->next) { }`: the last value of `iter`
unfoldable pub walk : (steps : ℕ) → Heap → ℕ → Option ℕ
walk zero h a = if a == 0 then some 0 else none
walk (suc n) h a =
    let rest = h a >>= λ node. walk n h (node.next) in if a == 0 then some 0 else rest

unfoldable pub check_if_user_exists : (steps : ℕ) → (user : ℕ) → State → Option Bool
check_if_user_exists steps user (l, h) =
    if get_password_list_size l == 0
    then some false
    else walk steps h (l.head) >>= λ iter. some false

-- getUserPasswordPointer, getUserReadPermissionsPointer and getUserWritePermissionsPointer
unfoldable pub get_user_password_pointer : (steps : ℕ) → (user : ℕ) → State → Option ℕ
get_user_password_pointer steps user (l, h) =
    if get_password_list_size l == 0 then some 0 else walk steps h (l.head)

unfoldable pub get_user_read_permissions_pointer : (steps : ℕ) → (user : ℕ) → State → Option ℕ
get_user_read_permissions_pointer steps user (l, h) =
    if get_password_list_size l == 0 then some 0 else walk steps h (l.head)

unfoldable pub get_user_write_permissions_pointer : (steps : ℕ) → (user : ℕ) → State → Option ℕ
get_user_write_permissions_pointer steps user (l, h) =
    if get_password_list_size l == 0 then some 0 else walk steps h (l.head)

-- The new node behind the tail, or as the only one.
unfoldable pub link_node : ℕ → State → Option (Bool × State)
link_node a (l, h) =
    if get_password_list_size l == 0
    then some (true, (record { head = a; tail = a; size = 1 }, h))
    else do
      node ← h (l.tail)
      let h = upd h (l.tail) (some (record node { next = a }))
      some (true, (record l { tail = a; size = l.size + 1 }, h))

unfoldable pub add_new_user :
    Malloc → (steps : ℕ) → (user password : ℕ) → State → Option (Bool × State)
add_new_user malloc steps user password (l, h) = do
  exists ← check_if_user_exists steps user (l, h)
  let (a, h') = create_node malloc user password (l.head) 0 h
  if exists
      then some (false, (l, h))
      else if a == 0
      then some (false, (l, h'))
      else link_node a (l, h')

unfoldable pub clear_nodes : (steps : ℕ) → ℕ → Heap → Option Heap
clear_nodes zero a h = if a == 0 then some h else none
clear_nodes (suc n) a h =
    let rest = h a >>= λ node. destroy_node a h >>= clear_nodes n (node.next) in
    if a == 0 then some h else rest

-- The head and the tail stay as they are.
unfoldable pub clear_password_list : (steps : ℕ) → State → Option State
clear_password_list steps (l, h) = do
  h ← clear_nodes steps (l.head) h
  some (record l { size = 0 }, h)

-- The neighbours of a node are linked to each other; each part reads the node again.
unfoldable pub unlink_before : ℕ → State → Option State
unlink_before iter (l, h) = do
  node ← h iter
  if iter == l.head
      then some (record l { head = node.next }, h)
      else (h (node.previous) >>= λ p.
          some (l, upd h (node.previous) (some (record p { next = node.next }))))

unfoldable pub unlink_behind : ℕ → State → Option State
unlink_behind iter (l, h) = do
  node ← h iter
  if iter == l.tail
      then some (record l { tail = node.previous }, h)
      else (h (node.next) >>= λ n.
          some (l, upd h (node.next) (some (record n { previous = node.previous }))))

-- The walk leaves `iter` at NULL, and the links of `*iter` are read.
unfoldable pub unlink_node : ℕ → State → Option State
unlink_node iter s = do
  s ← unlink_before iter s
  (l, h) ← unlink_behind iter s
  h ← destroy_node iter h
  some (record l { size = l.size - 1 }, h)

unfoldable pub remove_user : (steps : ℕ) → (user : ℕ) → State → Option (Bool × State)
remove_user steps user (l, h) =
    if get_password_list_size l == 0
    then some (false, (l, h))
    else do iter ← walk steps h (l.head); s ← unlink_node iter (l, h); some (true, s)

-- The six functions on permissions: a check whether the user exists, and a walk with no body.
unfoldable pub no_permission : (steps : ℕ) → (user : ℕ) → State → Option Bool
no_permission steps user (l, h) = do
  exists ← check_if_user_exists steps user (l, h)
  if exists then (walk steps h (l.head) >>= λ iter. some false) else some false

abbrev pub add_read_permissions : (steps : ℕ) → (user bank : ℕ) → State → Option Bool
add_read_permissions steps user bank s = no_permission steps user s

abbrev pub add_write_permissions : (steps : ℕ) → (user bank : ℕ) → State → Option Bool
add_write_permissions steps user bank s = no_permission steps user s

abbrev pub remove_read_permissions : (steps : ℕ) → (user bank : ℕ) → State → Option Bool
remove_read_permissions steps user bank s = no_permission steps user s

abbrev pub remove_write_permissions : (steps : ℕ) → (user bank : ℕ) → State → Option Bool
remove_write_permissions steps user bank s = no_permission steps user s

abbrev pub check_read_permissions : (steps : ℕ) → (user bank : ℕ) → State → Option Bool
check_read_permissions steps user bank s = no_permission steps user s

abbrev pub check_write_permissions : (steps : ℕ) → (user bank : ℕ) → State → Option Bool
check_write_permissions steps user bank s = no_permission steps user s
