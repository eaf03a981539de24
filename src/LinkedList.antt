-- ===== src/LinkedList.antt =====
-- kernel/list.c and include/common/list.h: doubly linked rings of nodes with a sentinel, on an
-- explicit heap. A pointer is its address. Each field of `ListNode_t` is a map from the node's
-- address, and the sentinel `list->end` stands 4 bytes behind the list. A function that writes
-- memory returns the new heap. Following NULL is a page fault that the kernel does not survive.
pub mod Links
pub mod Ring
pub mod Splice
pub mod Places
pub mod Ends
pub mod Move
pub mod Insert
pub mod Search
mod Tests
use rdix.Common.{
  ℕ, zero, suc, ◌+◌, Bool, true, false, ◌&&◌, not, Option, none, some, Outcome, ok, out_of_fuel,
  ◌>>=◌, ◌>>◌, assert, ltb, ◌==◌, if◌then◌else◌, u32, sub32,
}

abbrev pub Ptr : Type 0
Ptr = ℕ

abbrev pub null : Ptr
null = 0

pub record Heap : Type 0 where
  pub value : Ptr → ℕ
  pub next : Ptr → Ptr
  pub previous : Ptr → Ptr
  pub owner : Ptr → Ptr
  pub container : Ptr → Ptr
  pub number_of_node : Ptr → ℕ

-- `f` with `v` written at `p`
unfoldable pub update : (Ptr → ℕ) → Ptr → ℕ → Ptr → ℕ
update f p v q = if q == p then v else f q

-- `&list->end`
abbrev pub end : Ptr → Ptr
end list = list + 4

-- a read or write through `p`
abbrev pub deref : Ptr → Outcome (Unit {0})
deref p = assert (not (p == null))

unfoldable pub list_init : Ptr → Heap → Heap
unfolding update
list_init list h = record h {
  value = update h.value (end list) 0xffff_ffff;
  next = update h.next (end list) (end list);
  previous = update h.previous (end list) (end list);
  owner = update h.owner (end list) null;
  container = update h.container (end list) list;
  number_of_node = update h.number_of_node list 0;
}

unfoldable pub node_init : Ptr → Ptr → ℕ → Heap → Heap
unfolding update
node_init node owner value h = record h {
  value = update h.value node value;
  next = update h.next node node;
  previous = update h.previous node node;
  owner = update h.owner node owner;
  container = update h.container node null;
}

unfoldable pub list_isempty : Ptr → Heap → Outcome Bool
list_isempty list h = do assert (not (list == null)); ok (h.number_of_node list == 0)

-- `++node->container->number_of_node`, after the container of the anchor is handed on.
unfoldable pub join : Ptr → Ptr → Heap → Outcome Heap
unfolding update
join anchor node h = do
  let list = h.container anchor
  deref list
  ok (record h {
    container = update h.container node list;
    number_of_node = update h.number_of_node list (u32 (h.number_of_node list + 1));
  })

unfoldable pub insert_before_anchor : Ptr → Ptr → Heap → Outcome Heap
unfolding update join
insert_before_anchor anchor node h = do
  assert (not (anchor == null) && not (node == null))
  let before = h.previous anchor
  let h1 = record h {
    previous = update (update h.previous node before) anchor node;
    next = update h.next node anchor;
  }
  deref (h1.previous node)
  join anchor node (record h1 { next = update h1.next (h1.previous node) node })

unfoldable pub insert_after_anchor : Ptr → Ptr → Heap → Outcome Heap
unfolding update join
insert_after_anchor anchor node h = do
  assert (not (anchor == null) && not (node == null))
  let after = h.next anchor
  let h1 = record h {
    next = update (update h.next node after) anchor node;
    previous = update h.previous node anchor;
  }
  deref (h1.next node)
  join anchor node (record h1 { previous = update h1.previous (h1.next node) node })

unfoldable pub remove_node : Ptr → Heap → Outcome Heap
unfolding update
remove_node node h = do
  deref node
  let list = h.container node
  assert (not (list == null))
  deref (h.next node)
  let h1 = record h { previous = update h.previous (h.next node) (h.previous node) }
  deref (h1.previous node)
  let h2 = record h1 { next = update h1.next (h1.previous node) (h1.next node) }
  ok (record h2 {
    next = update h2.next node node;
    previous = update h2.previous node node;
    container = update h2.container node null;
    number_of_node = update h2.number_of_node list (sub32 (h2.number_of_node list) 1);
  })

-- Push at the head; the node must be in no list.
unfoldable pub list_push : Ptr → Ptr → Heap → Outcome Heap
unfolding insert_after_anchor
list_push list node h = do assert (h.container node == null); insert_after_anchor (end list) node h

-- Push at the tail.
unfoldable pub list_pushback : Ptr → Ptr → Heap → Outcome Heap
unfolding insert_before_anchor
list_pushback list node h = do
  assert (h.container node == null)
  insert_before_anchor (end list) node h

-- The result is NULL on an empty list.
unfoldable pub list_pop : Ptr → Heap → Outcome (Ptr × Heap)
unfolding list_isempty remove_node
list_pop list h = do
  empty ← list_isempty list h
  if empty
      then ok (null, h)
      else (do h' ← remove_node (h.next (end list)) h; ok (h.next (end list), h'))

unfoldable pub list_popback : Ptr → Heap → Outcome (Ptr × Heap)
unfolding list_isempty remove_node
list_popback list h = do
  empty ← list_isempty list h
  if empty
      then ok (null, h)
      else (do h' ← remove_node (h.previous (end list)) h; ok (h.previous (end list), h'))

-- The `while` of `search_node`, on fuel. Its body does not move `ans` on.
unfoldable pub search_loop : ℕ → Ptr → Ptr → ℕ → Heap → Outcome Ptr
search_loop zero list ans value h = out_of_fuel
search_loop (suc f) list ans value h =
    let again = search_loop f list ans value h in
    if ans == end list
    then ok null
    else (do deref ans; if h.value ans == value then ok ans else again)

unfoldable pub search_node : ℕ → Ptr → ℕ → Heap → Outcome Ptr
unfolding search_loop
search_node fuel list value h = search_loop fuel list (h.next (end list)) value h

-- The `for` of `list_insert` and the push that follows it, on fuel. After the `break` the anchor is
-- not the sentinel, so `list_pushback` runs only where the loop ran to its end.
unfoldable pub insert_loop : ℕ → Ptr → Ptr → (ℕ → ℕ → Bool) → Ptr → Heap → Outcome Heap
insert_loop zero list node cmp iter h = out_of_fuel
insert_loop (suc f) list node cmp iter h =
    let onward = insert_loop f list node cmp (h.next iter) h in
    if iter == end list then list_pushback list node h else (do
      deref iter
      if cmp (h.value iter) (h.value node) then insert_before_anchor iter node h else onward)

unfoldable pub list_insert : ℕ → Ptr → Ptr → (ℕ → ℕ → Bool) → Heap → Outcome Heap
list_insert fuel list node cmp h = do
  empty ← list_isempty list h
  if empty then list_push list node h else insert_loop fuel list node cmp (h.next (end list)) h

unfoldable pub less : ℕ → ℕ → Bool
less a b = ltb a b

unfoldable pub greater : ℕ → ℕ → Bool
greater a b = ltb b a
