-- ===== src/Buffers/Tests.antt =====
-- Runs of the cache, and concrete instances of its theorems.
use rdix.Common.{ℕ, ◌≡◌, refl, true, List, [], ◌∷◌, arith, ok, ◌>>=◌, Outcome}
use rdix.Buffers.{
  Cache, Got, waits, fresh_buffer, hash, find_in, find_from_hash_table, find_new, get_new_buffer,
  getblk, bread, brelse, bwrite, fill_buffer, choose, consider, weigh, use_again, buffer_remove,
  buffer_insert, unlink, sync_dev, sync_buffers,
}
use rdix.Buffers.Keys.{Hashed}
use rdix.Buffers.Getblk.{Answer, getblk-Answers}
use rdix.Buffers.Reads.{Read, bread-Read}

-- a disk whose blocks hold their number
abbrev numbers : ℕ → ℕ → List ℕ
numbers dev blknr = blknr ∷ []

-- no buffer yet, and room for one
abbrev empty_cache : Cache
empty_cache = record {
  buffers = λ id. fresh_buffer;
  used = 0;
  room = 1;
  free_list = [];
  hash_table = λ i. [];
  disk = numbers;
}

empty_cache-Hashed : Hashed empty_cache
empty_cache-Hashed = record {
  below = λ a i h. omega (arith, h);
  queued = λ a h. omega (arith, h);
  placed = λ a h. absurd (omega (arith, h));
  one_key = λ a b h h' same. absurd (omega (arith, h));
}

getblk-Answers_example :
    (g : Got) × (s' : Cache) × (getblk 1 7 empty_cache ≡ ok (g, s')) × Answer empty_cache 1 7 g s'
getblk-Answers_example = getblk-Answers empty_cache 1 7 empty_cache-Hashed

bread-Read_example :
    (g : Got) × (s' : Cache) × (bread 1 7 empty_cache ≡ ok (g, s')) × Read empty_cache 1 7 g s'
bread-Read_example = bread-Read empty_cache 1 7 empty_cache-Hashed

abbrev bytes_read : Outcome (Got × Cache) → Outcome (List ℕ × ℕ)
bytes_read run = run >>= λ r. ok ((r.1.buffers 0).b_data, (r.1.buffers 0).b_count)

abbrev next : Outcome (Got × Cache) → (Cache → Outcome (Got × Cache)) → Outcome (Got × Cache)
next run then_run = run >>= λ r. then_run r.1

-- The only buffer is read twice, released twice, and then used for another block.
used_again :
    bytes_read
      (next (next (bread 1 7 empty_cache) (bread 1 7)) (λ s. bread 1 9 (brelse 0 (brelse 0 s))))
    ≡ ok (9 ∷ [], 1)
unfolding bread getblk find_from_hash_table find_in hash get_new_buffer find_new buffer_remove
    buffer_insert unlink fill_buffer brelse bwrite choose consider weigh use_again
used_again = refl

-- While it is in use, the task that wants another block waits.
in_use : (next (bread 1 7 empty_cache) (bread 1 9) >>= λ r. ok r.0) ≡ ok waits
unfolding bread getblk find_from_hash_table find_in hash get_new_buffer find_new buffer_remove
    buffer_insert unlink fill_buffer choose consider weigh use_again
in_use = refl

-- A release too many leaves 255 users: the assertion behind it always holds.
released_twice :
    (next (bread 1 7 empty_cache) (λ s. ok (waits, brelse 0 (brelse 0 s))) >>= λ r.
    ok (r.1.buffers 0).b_count)
    ≡ ok 255
unfolding bread getblk find_from_hash_table find_in hash get_new_buffer find_new buffer_remove
    buffer_insert unlink fill_buffer brelse bwrite
released_twice = refl

-- sync_dev of one device writes the blocks of all.
syncs_all :
    ((sync_dev 2 (record empty_cache {
      buffers =
          λ id. record fresh_buffer { b_dev = 1; b_blknr = 7; b_data = 5 ∷ []; b_dirty = true };
      used = 1;
    })).disk
      1 7)
    ≡ 5 ∷ []
unfolding sync_dev sync_buffers bwrite
syncs_all = refl
