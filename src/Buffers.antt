-- ===== src/Buffers.antt =====
-- fs/buffer.c: the cache of disk blocks. A buffer is known by its place in the array of buffers, and a
-- list by its nodes from the head on. A call of the model is one step: device_request is served
-- before it returns, and no other task runs in between.
pub mod Keys
pub mod Replace
pub mod Blocks
pub mod Choice
pub mod Getblk
pub mod Reads
mod Tests
use Prim.Native.Nat.{bit_xor}
use rdix.Common.{
  ℕ, zero, suc, ◌+◌, ◌-◌, ◌*◌, ◌%◌, ◌^◌, Bool, true, false, ◌&&◌, not, Option, none, some, List, [],
  ◌∷◌, ◌++◌, ltb, leb, ◌==◌, if◌then◌else◌, u8, Outcome, ok, panic, ◌>>=◌, ◌>>◌, assert,
}
use rdix.Tasks.{remove}

-- `buffer_t`: `locked` is `test_lock` of `b_lock`, `waiter` whether a task waits for the buffer, and
-- `b_hnode` the hash list that the node is in.
pub record Buffer : Type 0 where
  pub b_data : List ℕ
  pub b_blknr : ℕ
  pub b_dev : ℕ
  pub b_dirty : Bool
  pub locked : Bool
  pub b_count : ℕ
  pub b_vaild : Bool
  pub waiter : Bool
  pub b_hnode : Option ℕ

-- `used` buffers stand before `buffer_ptr`, and `room` more fit before `__data`. `disk` has the blocks
-- of the devices.
pub record Cache : Type 0 where
  pub buffers : ℕ → Buffer
  pub used : ℕ
  pub room : ℕ
  pub free_list : List ℕ
  pub hash_table : ℕ → List ℕ
  pub disk : ℕ → ℕ → List ℕ

abbrev pub hash_cnt : ℕ
hash_cnt = 31

unfoldable pub hash : ℕ → ℕ → ℕ
hash dev block = bit_xor dev block % hash_cnt

abbrev pub at {ℓ} : {A : Type ℓ} → (ℕ → A) → ℕ → A → ℕ → A
at f i v k = if k == i then v else f k

abbrev pub put_buffer : ℕ → Buffer → Cache → Cache
put_buffer id b s = record s { buffers = at s.buffers id b }

abbrev pub is_block : ℕ → ℕ → Buffer → Bool
is_block dev blknr b = b.b_dev == dev && (b.b_blknr == blknr)

unfoldable pub find_in : (ℕ → Buffer) → ℕ → ℕ → List ℕ → Option ℕ
find_in buffers dev blknr [] = none
find_in buffers dev blknr (id ∷ ids) =
    let rest = find_in buffers dev blknr ids in
    if is_block dev blknr (buffers id) then some id else rest

unfoldable pub find_from_hash_table : ℕ → ℕ → Cache → Option ℕ
unfolding hash find_in
find_from_hash_table dev blknr s = find_in s.buffers dev blknr (s.hash_table (hash dev blknr))

-- the fields that `get_new_buffer` sets; EOF is 2 ^ 32 - 1
abbrev pub fresh_buffer : Buffer
fresh_buffer = record {
  b_data = [];
  b_blknr = 0;
  b_dev = 4294967295;
  b_dirty = false;
  locked = false;
  b_count = 0;
  b_vaild = false;
  waiter = false;
  b_hnode = none;
}

unfoldable pub get_new_buffer : Cache → Option (ℕ × Cache)
get_new_buffer s = elim s.room [
  | zero ↦ none
  | (suc n) ↦
      some (s.used, record (put_buffer s.used fresh_buffer s) { used = s.used + 1; room = n })
]

-- `_SCORE`
abbrev pub score : Buffer → ℕ
score b = (if b.locked then 1 else 0) + (if b.b_dirty then 2 else 0)

abbrev pub better : (ℕ → Buffer) → ℕ → ℕ → ℕ
better buffers id bf = if ltb (score (buffers id)) (score (buffers bf)) then id else bf

-- `if (!bf) bf = tmp;`
abbrev pub or_this : Option ℕ → ℕ → ℕ
or_this none id = id
or_this (some bf) id = bf

-- The last two tests of a round; `true` goes to `_find_new`.
unfoldable pub weigh : (ℕ → Buffer) → ℕ → ℕ → Bool × Option ℕ
weigh buffers bf id =
    if score (buffers bf) == 0 then (true, some bf) else (false, some (better buffers id bf))

-- One round of the search for a buffer to use again, with the best one so far.
unfoldable pub consider : (ℕ → Buffer) → Option ℕ → ℕ → Bool × Option ℕ
unfolding weigh
consider buffers best id =
    if not ((buffers id).b_count == 0)
    then (false, best)
    else if (buffers id).waiter
    then (false, best)
    else weigh buffers (or_this best id) id

unfoldable pub choose : (ℕ → Buffer) → Option ℕ → List ℕ → Option ℕ
unfolding consider
choose buffers best [] = best
choose buffers best (id ∷ ids) =
    let (found, best') = consider buffers best id in
    let rest = choose buffers best' ids in if found then best' else rest

-- `remove_node` of a hash node, if it is in a list.
unfoldable pub unlink : ℕ → Option ℕ → (ℕ → List ℕ) → ℕ → List ℕ
unlink id none table = table
unlink id (some i) table = at table i (remove id (table i))

unfoldable pub buffer_remove : ℕ → Cache → Cache
unfolding unlink
buffer_remove id s = record s {
  free_list = remove id s.free_list;
  hash_table = unlink id (s.buffers id).b_hnode s.hash_table;
}

unfoldable pub buffer_insert : ℕ → Cache → Cache
unfolding hash
buffer_insert id s =
    let i = hash (s.buffers id).b_dev (s.buffers id).b_blknr in
    record s {
      buffers = at s.buffers id (record (s.buffers id) { b_hnode = some i });
      free_list = s.free_list ++ (id ∷ []);
      hash_table = at s.hash_table i (id ∷ s.hash_table i);
    }

-- From `_find_new` on.
unfoldable pub find_new : ℕ → ℕ → ℕ → Cache → Cache
unfolding buffer_remove buffer_insert
find_new id dev blknr s =
    let b = record (s.buffers id) {
      b_count = 1;
      b_dirty = false;
      b_vaild = false;
      b_blknr = blknr;
      b_dev = dev;
    } in
    buffer_insert id (buffer_remove id (put_buffer id b s))

-- The request of a write is served: the disk has the bytes.
unfoldable pub bwrite : ℕ → Cache → Cache
bwrite id s =
    let b = s.buffers id in
    if b.b_dirty
    then record (put_buffer id (record b { b_dirty = false }) s) {
      disk = at s.disk b.b_dev (at (s.disk b.b_dev) b.b_blknr b.b_data);
    }
    else s

-- What `getblk` comes to: a buffer; or the task waits until one is released, and tries again; or it
-- waits until the buffer is unlocked.
pub data Got : Type 0 where
  got : ℕ → Got
  waits : Got
  waits_unlock : ℕ → Got

-- The tests behind `bwrite`, for what other tasks did meanwhile, are left out.
unfoldable pub use_again : ℕ → ℕ → ℕ → Cache → Outcome (Got × Cache)
unfolding find_new bwrite
use_again id dev blknr s =
    if (s.buffers id).locked
    then assert (not (s.buffers id).waiter)
      >> ok (waits_unlock id, put_buffer id (record (s.buffers id) { waiter = true }) s)
    else ok (got id, find_new id dev blknr (bwrite id s))

unfoldable pub getblk : ℕ → ℕ → Cache → Outcome (Got × Cache)
unfolding find_from_hash_table get_new_buffer choose find_new use_again
getblk dev blknr s = elim (find_from_hash_table dev blknr s) [
  | some id ↦ ok (
    got id,
    put_buffer id (record (s.buffers id) { b_count = u8 ((s.buffers id).b_count + 1) }) s,
  )
  | none ↦ elim (get_new_buffer s) [
    | some (id, s') ↦ ok (got id, find_new id dev blknr s')
    | none ↦ elim (choose s.buffers none s.free_list) [
      | none ↦ ok (waits, s)
      | some id ↦ use_again id dev blknr s
    ]
  ]
]

-- `bread` behind `getblk`.
unfoldable pub fill_buffer : ℕ → Cache → Cache
fill_buffer id s =
    let b = s.buffers id in
    if b.b_vaild
    then s
    else put_buffer id
        (record b { b_data = s.disk b.b_dev b.b_blknr; b_vaild = true; b_dirty = false }) s

unfoldable pub bread : ℕ → ℕ → Cache → Outcome (Got × Cache)
unfolding getblk fill_buffer
bread dev blknr s = do
  (g, s') ← getblk dev blknr s
  elim g [
    | (got id) ↦ ok (got id, fill_buffer id s')
    | waits ↦ ok (waits, s')
    | (waits_unlock id) ↦ ok (waits_unlock id, s')
  ]

-- `b_count` is a u8, so its `assert` always holds. Whether a task that waits for a buffer is woken is
-- left out.
unfoldable pub brelse : ℕ → Cache → Cache
unfolding bwrite
brelse id s =
    let b = s.buffers id in
    let s' = put_buffer id (record b { b_count = u8 (b.b_count + 255) }) s in
    if u8 (b.b_count + 255) == 0 then bwrite id s' else s'

-- `sync_dev`, the buffers before number `n`: its argument is not used.
unfoldable pub sync_buffers : ℕ → Cache → Cache
unfolding bwrite
sync_buffers zero s = s
sync_buffers (suc n) s = bwrite n (sync_buffers n s)

unfoldable pub sync_dev : ℕ → Cache → Cache
unfolding sync_buffers
sync_dev dev s = sync_buffers s.used s
