-- ===== src/Keyboard/History.antt =====
-- The keys that are held, from the scan codes that have come: the newest code first.
use rdix.Common.{
  ◌⊎◌, ℕ, ◌+◌, ◌%◌, ◌≤◌, ◌<◌, ◌≡◌, ◌≢◌, ◌∙◌, refl, sym, ap, inl, inr, Bool, true, false, ◌&&◌, not,
  List, [], ◌∷◌, arith, ltb, leb, ◌==◌, if◌then◌else◌, ltb→lt, ==→eq, ==→ne, Bool-cases, length,
  get_or, set, get_or-set_self, get_or-set_ne, length-set, get_or-replicate,
}
use rdix.Keyboard.{key_capslock, key_print_screen, Keys, no_keys, set_key, key_down, scan}

-- the state that codes lead to
unfoldable pub state_after : List ℕ → Keys
state_after [] = no_keys
state_after (c ∷ h) = (scan c (state_after h)).0

-- whether the next code is of an extended key
unfoldable pub pending : List ℕ → Bool
pending [] = false
pending (c ∷ h) = c == 224

-- whether the last code of the plain key was that it went down
unfoldable pub held : ℕ → List ℕ → Bool
held key [] = false
held key (c ∷ h) =
    let before = held key h in
    if pending h
    then before
    else if c == key
    then true
    else if c == key + 128
    then false
    else before

-- caps lock, which each code of the key's going down switches
unfoldable pub caps : List ℕ → Bool
caps [] = false
caps (c ∷ h) =
    let before = caps h in if not (pending h) && c == key_capslock then not before else before

-- The state of the handler says of each plain key whether it is held.
pub record Reflects (s : Keys) (h : List ℕ) : Type 0 where
  pub ext_pending : s.extcode_state ≡ pending h
  pub capslock : s.capslock_state ≡ caps h
  pub size : length s.pressed ≡ 96
  pub keys : (key : ℕ) → key ≤ key_print_screen → get_or s.pressed key false ≡ held key h

ne-false : (a b : ℕ) → a ≢ b → (a == b) ≡ false
ne-false a b h = ground arith

held-other :
    (c key : ℕ) (h : List ℕ)
    → key ≤ key_print_screen
    → (pending h ≡ true) ⊎ (key_print_screen < c % 128)
    → held key (c ∷ h) ≡ held key h
unfolding held
held-other c key h small (inl w) = rw w refl
held-other c key h small (inr w) = elim (Bool-cases (pending h)) [
  | inl b ↦ rw b refl
  | inr b ↦
      rw (b, ne-false c key (λ e. omega arith), ne-false c (key + 128) (λ e. omega arith)) refl
]

caps-other :
    (c : ℕ) (h : List ℕ) → (pending h ≡ true) ⊎ (key_print_screen < c % 128) → caps (c ∷ h) ≡ caps h
unfolding caps
caps-other c h (inl w) = rw w refl
caps-other c h (inr w) = elim (Bool-cases (pending h)) [
  | inl b ↦ rw b refl
  | inr b ↦ rw (b, ne-false c key_capslock (λ e. omega arith)) refl
]

held_self : (c : ℕ) (h : List ℕ) → c < 256 → pending h ≡ false → held (c % 128) (c ∷ h) ≡ ltb c 128
unfolding held
held_self c h byte plain = elim (Bool-cases (ltb c 128)) [
  | inl b ↦ rw (plain, b) (ground (arith, b))
  | inr b ↦ rw (plain, b) (ground (arith, b, byte))
]

held-ne :
    (c key : ℕ) (h : List ℕ)
    → c < 256
    → key ≤ key_print_screen
    → c % 128 ≢ key
    → pending h ≡ false
    → held key (c ∷ h) ≡ held key h
unfolding held
held-ne c key h byte small apart plain =
    rw
      (
        plain,
        ne-false c key (λ e. apart (omega arith)),
        ne-false c (key + 128) (λ e. apart (omega arith)),
      )
      refl

-- A code that is not of a plain key.
other_code :
    (c : ℕ) (s s' : Keys) (h : List ℕ)
    → Reflects s h
    → s'.pressed ≡ s.pressed
    → s'.capslock_state ≡ s.capslock_state
    → s'.extcode_state ≡ (c == 224)
    → (pending h ≡ true) ⊎ (key_print_screen < c % 128)
    → Reflects s' (c ∷ h)
unfolding pending
other_code c s s' h r p k e why = record {
  ext_pending = e;
  capslock = k ∙ r.capslock ∙ sym (caps-other c h why);
  size = ap length p ∙ r.size;
  keys = λ key small.
      ap (λ ks. get_or ks key false) p ∙ r.keys key small ∙ sym (held-other c key h small why);
}

-- A plain key goes down or up.
plain_code :
    (c : ℕ) (s s' : Keys) (h : List ℕ)
    → Reflects s h
    → c < 256
    → c % 128 ≤ key_print_screen
    → s'.pressed ≡ set s.pressed (c % 128) (ltb c 128)
    → s'.capslock_state ≡ (if c == key_capslock then not s.capslock_state else s.capslock_state)
    → s'.extcode_state ≡ false
    → pending h ≡ false
    → Reflects s' (c ∷ h)
unfolding pending caps
plain_code c s s' h r byte inside p k e plain = record {
  ext_pending = e ∙ sym (ne-false c 224 (λ x. omega arith));
  capslock = k ∙ rw (plain, r.capslock) refl;
  size = ap length p ∙ length-set s.pressed (c % 128) (ltb c 128) ∙ r.size;
  keys = λ key small. elim (Bool-cases (c % 128 == key)) [
    | inl b ↦
        let same = ==→eq (c % 128) key b in
        rw (p, sym same)
          (get_or-set_self s.pressed (c % 128) (ltb c 128) false (omega (arith, r.size))
            ∙ sym (held_self c h byte plain))
    | inr b ↦
        let apart = ==→ne (c % 128) key b in
        rw p (
          get_or-set_ne s.pressed (c % 128) key (ltb c 128) false apart
          ∙ r.keys key small
          ∙ sym (held-ne c key h byte small apart plain))
  ];
}

not_below : (c : ℕ) → 128 ≤ c → ltb c 128 ≡ false
not_below c h = ground arith

low_key : (c : ℕ) (keys : List Bool) → c < 128 → set keys (c % 128) (ltb c 128) ≡ set keys c true
low_key c keys h =
    let same : c % 128 ≡ c = omega arith in
    let down : ltb c 128 ≡ true = ground arith in rw (same, down) refl

scan-Reflects :
    (c : ℕ) (s : Keys) (h : List ℕ) → c < 256 → Reflects s h → Reflects (scan c s).0 (c ∷ h)
unfolding scan set_key key_down
scan-Reflects c s h byte r = elim (Bool-cases (c == 224)) [
  | inl b ↦
      let same = ==→eq c 224 b in rw b (other_code c _ _ h r refl refl (sym b) (inr (omega arith)))
  | inr b ↦ elim (Bool-cases (ltb key_print_screen (c % 128))) [
    | inl out ↦
        rw (b, out)
          (other_code c _ _ h r refl refl (sym b) (inr (ltb→lt key_print_screen (c % 128) out)))
    | inr inside ↦ elim (Bool-cases (pending h)) [
      | inl ext ↦ elim (Bool-cases (leb 128 c)) [
        | inl up ↦
            rw (b, inside, up, r.ext_pending ∙ ext)
              (other_code c s _ h r refl refl (sym b) (inl ext))
        | inr down ↦
            rw (b, inside, down, r.ext_pending ∙ ext)
              (other_code c s _ h r refl refl (sym b) (inl ext))
      ]
      | inr plain ↦ elim (Bool-cases (leb 128 c)) [
        | inl up ↦
            let high : 128 ≤ c = ground (arith, up) in
            rw (b, inside, up, r.ext_pending ∙ plain)
              (plain_code c s _ h r byte (ground (arith, inside))
                (ap (set s.pressed (c % 128)) (sym (not_below c high)))
                (rw (ne-false c key_capslock (λ e. omega arith)) refl) refl plain)
        | inr down ↦
            let low : c < 128 = ground (arith, down) in
            elim (Bool-cases (c == key_capslock)) [
              | inl lock ↦
                  rw (b, inside, down, r.ext_pending ∙ plain, lock)
                    (plain_code c s _ h r byte (ground (arith, inside))
                      (sym (low_key c s.pressed low)) (rw lock refl) refl plain)
              | inr other ↦
                  rw (b, inside, down, r.ext_pending ∙ plain, other)
                    (plain_code c s _ h r byte (ground (arith, inside))
                      (sym (low_key c s.pressed low)) (rw other refl) refl plain)
            ]
      ]
    ]
  ]
]

-- scan codes are bytes
abbrev pub Bytes : List ℕ → Type 0
Bytes [] = Unit
Bytes (c ∷ h) = (c < 256) × Bytes h

-- For any scan codes that have come, the handler's record of a plain key is whether the last code
-- of that key was its going down; codes behind 0xe0 are of other keys. Caps lock is on after an odd
-- number of its codes.
pub state_after-Reflects : (h : List ℕ) → Bytes h → Reflects (state_after h) h
unfolding state_after pending caps held
state_after-Reflects [] b = record {
  ext_pending = refl;
  capslock = refl;
  size = refl;
  keys = λ key small. get_or-replicate 96 key false;
}
state_after-Reflects (c ∷ h) (byte, b) =
    scan-Reflects c (state_after h) h byte (state_after-Reflects h b)
