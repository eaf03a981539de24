-- ===== src/Buffers/Reads.antt =====
-- What bread gives out.
use mathlib.Core.Path.{ap₂}
use rdix.Common.{
  ℕ, ◌<◌, ◌≡◌, ◌∙◌, inl, inr, refl, sym, ap, true, false, some, ok, if◌then◌else◌, Bool-cases,
}
use rdix.Buffers.{
  Buffer, Cache, Got, got, waits, waits_unlock, at, find_from_hash_table, fill_buffer, getblk,
  bread,
}
use rdix.Buffers.Keys.{Hashed, at_self, find-found}
use rdix.Buffers.Blocks.{Hashed-same, put_buffer-SameKeys}
use rdix.Buffers.Getblk.{Given, Answer, Answers, content, getblk-Answers}

-- The buffer of the block has its bytes, valid, and is found.
pub record Holds (s s' : Cache) (dev blknr id : ℕ) : Type 0 where
  pub inside : id < s'.used
  pub bytes : (s'.buffers id).b_data ≡ content dev blknr s
  pub vaild : (s'.buffers id).b_vaild ≡ true
  pub found : find_from_hash_table dev blknr s' ≡ some id
  pub hashed : Hashed s'

-- A task waits as in getblk.
abbrev pub Read : Cache → ℕ → ℕ → Got → Cache → Type 0
Read s dev blknr (got id) s' = Holds s s' dev blknr id
Read s dev blknr waits s' = Answer s dev blknr waits s'
Read s dev blknr (waits_unlock id) s' = Answer s dev blknr (waits_unlock id) s'

fill_buffer-Holds :
    (s s' : Cache) (dev blknr id : ℕ)
    → Given s s' dev blknr id
    → Holds s (fill_buffer id s') dev blknr id
unfolding fill_buffer
fill_buffer-Holds s s' dev blknr id g = elim (Bool-cases (s'.buffers id).b_vaild) [
  | inl b ↦ rw b (record {
    inside = g.inside;
    bytes = ap (λ v. if v then (s'.buffers id).b_data else s'.disk dev blknr) (sym b) ∙ g.bytes;
    vaild = b;
    found = g.found;
    hashed = g.hashed;
  })
  | inr b ↦
      let old = s'.buffers id in
      let new : Buffer = record old {
        b_data = s'.disk old.b_dev old.b_blknr;
        b_vaild = true;
        b_dirty = false;
      } in
      let s1 : Cache = record s' { buffers = at s'.buffers id new } in
      let now : s1.buffers id ≡ new = at_self s'.buffers id new in
      let h1 : Hashed s1 =
        Hashed-same s' (at s'.buffers id new) s'.disk (put_buffer-SameKeys s' id new refl refl refl)
          g.hashed in
      let from_disk : s'.disk old.b_dev old.b_blknr ≡ s'.disk dev blknr =
        ap₂ s'.disk g.same_dev g.same_block in
      rw b (record {
        inside = g.inside;
        bytes =
            ap (λ (b : Buffer). b.b_data) now
            ∙ from_disk
            ∙ ap (λ v. if v then old.b_data else s'.disk dev blknr) (sym b)
            ∙ g.bytes;
        vaild = ap (λ (b : Buffer). b.b_vaild) now;
        found =
            find-found s1 h1 dev blknr id g.inside (ap (λ (b : Buffer). b.b_dev) now ∙ g.same_dev)
              (ap (λ (b : Buffer). b.b_blknr) now ∙ g.same_block);
        hashed = h1;
      })
]

-- On a cache where each block has one buffer at most bread returns: with the buffer of the block,
-- which has the bytes that the cache held for it, or else those of the disk; or with a wait. The
-- cache stays so.
pub bread-Read :
    (s : Cache) (dev blknr : ℕ)
    → Hashed s
    → (g : Got) × (s' : Cache) × (bread dev blknr s ≡ ok (g, s')) × Read s dev blknr g s'
unfolding bread
bread-Read s dev blknr h = behind (getblk-Answers s dev blknr h)
  where
    behind :
        Answers s dev blknr (getblk dev blknr s)
        → (g : Got) × (s' : Cache) × (bread dev blknr s ≡ ok (g, s')) × Read s dev blknr g s'
    behind (got id, s', run, given) =
        (got id, fill_buffer id s', rw (run, bread) refl, fill_buffer-Holds s s' dev blknr id given)
    behind (waits, s', run, answer) = (waits, s', rw (run, bread) refl, answer)
    behind (waits_unlock id, s', run, answer) = (waits_unlock id, s', rw (run, bread) refl, answer)
