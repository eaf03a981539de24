-- ===== src/Fs/Users.antt =====
-- The users of inodes: iget and iput of fs/minix1/inode.c.
use rdix.Common.{
  ℕ, ◌+◌, ◌-◌, ◌^◌, ◌≤◌, ◌<◌, ◌≡◌, ◌∙◌, inl, inr, refl, sym, true, false, ◌&&◌, none, some, arith,
  ok, ltb, lt→ltb, ltb→lt, ltb→le, ◌==◌, Bool-cases, Option-cases, leb, get_elem?, u32,
}
use rdix.Fs.{
  MInode, Fs, is_free, is_inode, find_inode, inode_block, inode_at, set_inode, loaded, grab, iget,
  iput,
}
use rdix.Fs.Table.{
  users_in, users, free_entries, total-set, total-get_elem?, find_inode-some, find_inode-none,
  get_free_inode-ok, false-ne-true,
}
use rdix.Fs.Live.{
  Sound, one_user, SameDisk, Got, is_inode-inv, is_inode-live, set-Sound, grab-Got, load-Got,
}

-- What must hold for `iget` to return.
pub record Ready (dev nr : ℕ) (fs : Fs) : Type 0 where
  pub sound : Sound fs.inode_table
  pub positive : 0 < nr
  pub exists : nr ≤ (fs.supers dev).inodes
  pub room : 0 < free_entries fs.inode_table
  pub few : users dev nr fs.inode_table + 1 < 2 ^ 32

-- Where the inode exists and the table has a free entry, iget returns an entry that is the inode.
-- The inode has one user more, every other as many as before, no inode stands in the table twice,
-- and nothing but the table changes.
pub iget-Got :
    (dev nr : ℕ) (fs : Fs)
    → Ready dev nr fs
    → (i : ℕ) × (after : Fs) × (iget dev nr fs ≡ ok (i, after)) × Got dev nr i fs after
unfolding iget grab inode_at
iget-Got dev nr fs h = elim (Option-cases (find_inode dev nr 0 fs.inode_table)) [
  | inr (j, e) ↦
      let (i, inode, at, found, is) = find_inode-some dev nr 0 fs.inode_table j e in
      let same : j ≡ i = omega (arith, at) in
      let here : get_elem? fs.inode_table j ≡ some inode = rw same found in
      let counts = total-get_elem? (users_in dev nr) fs.inode_table j inode here in
      let low : inode.count ≤ users dev nr fs.inode_table = rw is at counts in
      (
        j,
        set_inode j (record inode { count = u32 (inode.count + 1) }) fs,
        rw (lt→ltb 0 nr h.positive, e, grab, inode_at, here) refl,
        grab-Got dev nr j inode fs h.sound here is (omega (arith, h.few)),
      )
  | inl e ↦
      let (i, old, run, found, free) = get_free_inode-ok 0 fs.inode_table h.room in
      let (absent, idle) = find_inode-none dev nr 0 fs.inode_table e in
      let below : leb nr (fs.supers dev).inodes ≡ true = ground (arith, h.exists) in
      let block = inode_block (fs.supers dev) nr in
      let zero_i : 0 + i ≡ i = omega arith in
      (
        i,
        set_inode i (loaded dev nr block) fs,
        rw (lt→ltb 0 nr h.positive, e, below, run, zero_i) refl,
        load-Got dev nr i block old fs h.sound found free absent,
      )
]

-- `iput` of an inode in use returns: it has one user less, every other as many as before, and
-- nothing but the table changes.
pub iput-Put :
    (dev nr i : ℕ) (inode : MInode) (fs : Fs)
    → Sound fs.inode_table
    → get_elem? fs.inode_table i ≡ some inode
    → is_inode dev nr inode ≡ true
    → (after : Fs) × (iput i fs ≡ ok after)
      × Sound after.inode_table
      × SameDisk fs after
      × ((d n : ℕ) → users d n after.inode_table + one_user dev nr d n ≡ users d n fs.inode_table)
unfolding iput inode_at
iput-Put dev nr i inode fs sound found is =
    let live : is_free inode.dev ≡ false = is_inode-live dev nr inode is in
    let has = sound.used i inode found live in
    let sum =
      λ (d n : ℕ) (new : MInode). total-set (users_in d n) fs.inode_table i new inode found in
    elim (Bool-cases (ltb 1 inode.count)) [
      | inl b ↦
          let new : MInode = record inode { count = inode.count - 1 } in
          (
            set_inode i new fs,
            rw (iput, inode_at, found, lt→ltb 0 inode.count has, b) refl,
            set-Sound fs.inode_table i new inode sound found
                (λ e. omega (arith, ltb→lt 1 inode.count b)) (λ d n. omega (arith, sound.once d n)),
            (refl, refl, refl),
            λ d n.
                let key = is_inode-inv dev nr inode is d n in
                elim (Bool-cases (dev == d && nr == n)) [
                  | inl same ↦
                      rw same
                        (omega (arith, ltb→lt 1 inode.count b, rw (key ∙ same) at (sum d n new)))
                  | inr other ↦ rw other (omega (arith, rw (key ∙ other) at (sum d n new)))
                ],
          )
      | inr b ↦
          let new : MInode = record inode { count = 0; dev = none } in
          (
            set_inode i new fs,
            rw (iput, inode_at, found, lt→ltb 0 inode.count has, b) refl,
            set-Sound fs.inode_table i new inode sound found (λ e. absurd (false-ne-true (sym e)))
                (λ d n. omega (arith, sound.once d n)),
            (refl, refl, refl),
            λ d n.
                let key = is_inode-inv dev nr inode is d n in
                elim (Bool-cases (dev == d && nr == n)) [
                  | inl same ↦
                      rw same
                        (omega (arith, ltb→le 1 inode.count b, rw (key ∙ same) at (sum d n new)))
                  | inr other ↦ rw other (omega (arith, rw (key ∙ other) at (sum d n new)))
                ],
          )
    ]

-- Where iget returns by the hypotheses of `iget-Got`, iput of what it gives returns too, and then
-- every inode has as many users as before, and only the table of inodes differs.
pub iput-iget :
    (dev nr : ℕ) (fs : Fs)
    → Ready dev nr fs
    → (i : ℕ) × (held : Fs) × (after : Fs) × (iget dev nr fs ≡ ok (i, held))
      × (iput i held ≡ ok after)
      × Sound after.inode_table
      × SameDisk fs after
      × ((d n : ℕ) → users d n after.inode_table ≡ users d n fs.inode_table)
iput-iget dev nr fs h =
    let (i, held, run, got) = iget-Got dev nr fs h in
    let (inode, found, is) = got.there in
    let (after, back, sound, (descs, bytes, supers), fewer) =
      iput-Put dev nr i inode held got.sound found is in
    let (descs1, bytes1, supers1) = got.same in
    (
      i,
      held,
      after,
      run,
      back,
      sound,
      (descs1 ∙ descs, bytes1 ∙ bytes, supers1 ∙ supers),
      λ d n. omega (arith, fewer d n, got.counted d n),
    )
