-- ===== src/Fs/Direct.antt =====
-- The blocks that the descriptor names itself: bmap of fs/minix1/bmap.c below block 7.
use rdix.Common.{
  ℕ, ◌^◌, ◌<◌, ◌≡◌, ◌≢◌, ◌∙◌, refl, Bool, true, false, ◌&&◌, none, some, arith, ok, panic, lt→ltb,
  ◌==◌, get_elem?, set, get_elem?-set_self, replicate, u16,
}
use rdix.Blocks.{SuperBlock, balloc, block_size}
use rdix.Fs.{DInode, MInode, Fs, same_desc, put_desc, inode_at, desc_of, set_desc, dev_of}
use rdix.Fs.Zones.{
  zones, get_zone, set_zone, new_zone, reckon, bmap_from, bmap, set_bytes, set_super,
}

-- Inode `i` is in use on the device, with the descriptor.
pub record Held (i dev : ℕ) (desc : DInode) (fs : Fs) : Type 0 where
  pub inode : MInode
  pub there : get_elem? fs.inode_table i ≡ some inode
  pub on : inode.dev ≡ some dev
  pub is : fs.descs inode.desc ≡ desc

pub inode_at-Held :
    {i dev : ℕ} {desc : DInode} {fs : Fs} (h : Held i dev desc fs) → inode_at i fs ≡ ok h.inode
unfolding inode_at
inode_at-Held h = rw (inode_at, h.there) refl

pub dev_of-Held : {i dev : ℕ} {desc : DInode} {fs : Fs} → Held i dev desc fs → dev_of i fs ≡ ok dev
unfolding dev_of
dev_of-Held h = rw (dev_of, inode_at-Held h, h.on) refl

pub desc_of-Held :
    {i dev : ℕ} {desc : DInode} {fs : Fs} → Held i dev desc fs → desc_of i fs ≡ ok desc
unfolding desc_of
desc_of-Held h = rw (desc_of, inode_at-Held h, h.is) refl

pub get_zone-Held :
    {i dev : ℕ} {desc : DInode} {fs : Fs} (k nr : ℕ)
    → Held i dev desc fs
    → get_elem? desc.zone k ≡ some nr
    → get_zone i zones k fs ≡ ok nr
unfolding get_zone
get_zone-Held {i} {dev} {desc} {fs} k nr h e =
    let step : get_zone i zones k fs
        ≡ (elim (get_elem? desc.zone k) [ none ↦ panic | some n ↦ ok n ]) =
      rw (get_zone, desc_of-Held h) refl in
    step ∙ rw e refl

-- The zone is there: nothing is created.
pub bmap-direct :
    {i dev : ℕ} {desc : DInode} {fs : Fs} (k nr : ℕ) (create : Bool)
    → Held i dev desc fs
    → k < 7
    → k < (fs.supers dev).zones
    → get_elem? desc.zone k ≡ some nr
    → (create && nr == 0) ≡ false
    → bmap i k create fs ≡ ok (nr, fs)
unfolding bmap bmap_from reckon
bmap-direct k nr create h low small e old =
    rw (dev_of-Held h, lt→ltb k _ small, lt→ltb k 7 low, get_zone-Held k nr h e, old)
      (rw (get_zone-Held k nr h e) refl)

pub same_desc_self : (p : ℕ × ℕ × ℕ) → same_desc p p ≡ true
same_desc_self (d, b, s) = ground arith

-- The descriptor of an inode in use is replaced; blocks and maps may change, too.
abbrev pub put_desc-Held :
    {i dev : ℕ} {desc : DInode} {fs : Fs} (new : DInode) (h : Held i dev desc fs)
    → Held i dev new (put_desc h.inode.desc new fs)
put_desc-Held new h = record {
  inode = h.inode;
  there = h.there;
  on = h.on;
  is = rw (same_desc_self h.inode.desc) refl;
}

abbrev pub with_zone : ℕ → ℕ → DInode → DInode
with_zone k nr desc = record desc { zone = set desc.zone k nr }

pub same_super : (sb : SuperBlock) (fs : Fs) (dev : ℕ) → (set_super dev sb fs).supers dev ≡ sb
same_super sb fs dev = let e : (dev == dev) ≡ true = ground arith in rw e refl

-- The state with a new block of zeros at zone `k`.
abbrev pub created :
    {i dev : ℕ} {desc : DInode} {fs : Fs} → ℕ → ℕ → SuperBlock → Held i dev desc fs → Fs
created {i} {dev} {desc} {fs} k nr sb h =
    set_bytes dev nr (replicate block_size 0)
      (put_desc h.inode.desc (with_zone k nr desc) (set_super dev sb fs))

abbrev super-Held :
    {i dev : ℕ} {desc : DInode} {fs : Fs} (sb : SuperBlock)
    → Held i dev desc fs
    → Held i dev desc (set_super dev sb fs)
super-Held sb h = record { inode = h.inode; there = h.there; on = h.on; is = h.is }

new_zone-created :
    {i dev : ℕ} {desc : DInode} {fs : Fs} (k nr : ℕ) (sb : SuperBlock) (h : Held i dev desc fs)
    → balloc (fs.supers dev) ≡ ok (nr, sb)
    → nr < 2 ^ 16
    → new_zone i zones k fs ≡ ok (created k nr sb h)
unfolding new_zone set_zone set_desc
new_zone-created k nr sb h e small =
    let whole : u16 nr ≡ nr = omega arith in
    let on = super-Held sb h in
    rw (dev_of-Held h, e, whole) (rw (desc_of-Held on, inode_at-Held on) refl)

-- A direct block that is missing is created: it is the one that balloc gives, the descriptor names it,
-- it holds zeros, and nothing else differs. From then on bmap finds it.
pub bmap-created :
    {i dev : ℕ} {desc : DInode} {fs : Fs} (k nr : ℕ) (sb : SuperBlock) (h : Held i dev desc fs)
    → k < 7
    → k < (fs.supers dev).zones
    → get_elem? desc.zone k ≡ some 0
    → balloc (fs.supers dev) ≡ ok (nr, sb)
    → nr < 2 ^ 16
    → (bmap i k true fs ≡ ok (nr, created k nr sb h))
      × (k < sb.zones
          → nr ≢ 0
          → (create : Bool) → bmap i k create (created k nr sb h) ≡ ok (nr, created k nr sb h))
unfolding bmap bmap_from reckon
bmap-created {i} {dev} {desc} {fs} k nr sb h low small e new fits =
    let now = put_desc-Held (with_zone k nr desc) (super-Held sb h) in
    let made : Held i dev (with_zone k nr desc) (created k nr sb h) = record {
      inode = now.inode;
      there = now.there;
      on = now.on;
      is = now.is;
    } in
    let zone = get_elem?-set_self desc.zone k nr 0 e in
    (
      rw (dev_of-Held h, lt→ltb k _ small, lt→ltb k 7 low, get_zone-Held k 0 h e)
          (rw (new_zone-created k nr sb h new fits) (rw (get_zone-Held k nr made zone) refl)),
      λ small1 there create.
          bmap-direct k nr create made low (rw (same_super sb fs dev) small1) zone
            (ground (arith, there)),
    )
