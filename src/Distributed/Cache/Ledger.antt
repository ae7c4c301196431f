-- ===== src/Distributed/Cache/Ledger.antt =====
-- The numbers of the objects of all nodes: handed out, set aside for a node, or free.
use ocr_vx.Prelude.{
  ℕ, ◌+◌, ◌*◌, ◌^◌, ◌≤◌, ◌<◌, ◌≡◌, ◌≢◌, ◌∙◌, sym, ap, subst, ◌⊎◌, inl, inr, refl, arith, List, ◌∷◌,
  ◌==◌, count, true, false, Bool-cases, ==_iff,
}

-- The GUID of the object `x` of the node `n`.
abbrev pub word : ℕ → ℕ → ℕ
word n x = n * 2 ^ 31 + x

pub word-inj : (n m x y : ℕ) → x < 2 ^ 31 → y < 2 ^ 31 → word n x ≡ word m y → (n ≡ m) × (x ≡ y)
word-inj n m x y p q h = (omega arith, omega arith)

-- The first `size n` numbers of `n` are used, of which `a` has those from `lo a n` up to `hi a n` for
-- later; `gs` are the GUIDs that were handed out.
pub record Ledger (size : ℕ → ℕ) (lo hi : ℕ → ℕ → ℕ) (gs : List ℕ) : Type 0 where
  pub low : (n : ℕ) → 2 ≤ size n
  pub within : (a n x : ℕ) → lo a n ≤ x → x < hi a n → (2 ≤ x) × (x < size n)
  pub apart : (a b n x : ℕ) → lo a n ≤ x → x < hi a n → lo b n ≤ x → x < hi b n → a ≡ b
  pub fresh : (a n x : ℕ) → lo a n ≤ x → x < hi a n → x < 2 ^ 31 → count (word n x) gs ≡ 0
  pub future : (n x : ℕ) → size n ≤ x → x < 2 ^ 31 → count (word n x) gs ≡ 0
  pub once : (g : ℕ) → count g gs ≤ 1
  pub known :
      (g : ℕ)
      → count g gs ≢ 0
      → (n : ℕ) × (x : ℕ) × (g ≡ word n x) × (n < 2 ^ 32) × (x < 2 ^ 31) × (2 ≤ x) × (x < size n)

pub count-head : (g h : ℕ) (gs : List ℕ) → (h == g) ≡ true → count g (h ∷ gs) ≡ 1 + count g gs
unfolding count
count-head g h gs e = rw e refl

count-tail : (g h : ℕ) (gs : List ℕ) → (h == g) ≡ false → count g (h ∷ gs) ≡ count g gs
unfolding count
count-tail g h gs e = rw e (omega arith)

count-issued :
    (n m x y : ℕ) (gs : List ℕ)
    → x < 2 ^ 31
    → y < 2 ^ 31
    → ((m ≡ n) → (y ≡ x) → ⊥)
    → count (word m y) (word n x ∷ gs) ≡ count (word m y) gs
unfolding count
count-issued n m x y gs p q differ = elim (Bool-cases (word n x == word m y)) [
  | inl same ↦
      let e = word-inj n m x y p q ((==_iff (word n x) (word m y)).0 same) in
      absurd (differ (omega (arith, e.0)) (omega (arith, e.1)))
  | inr other ↦ count-tail (word m y) (word n x) gs other
]

module _ (size : ℕ → ℕ) (lo hi : ℕ → ℕ → ℕ) (gs : List ℕ) (l : Ledger size lo hi gs) where
  -- A number that was not handed out, and that no node has for later, is handed out.
  pub Ledger-issue :
      (n x : ℕ)
      → n < 2 ^ 32
      → x < 2 ^ 31
      → 2 ≤ x
      → x < size n
      → count (word n x) gs ≡ 0
      → ((a : ℕ) → lo a n ≤ x → x < hi a n → ⊥)
      → Ledger size lo hi (word n x ∷ gs)
  Ledger-issue n x small fits above used unissued free = record {
    low = l.low;
    within = l.within;
    apart = l.apart;
    fresh = λ a m y p q r.
        count-issued n m x y gs fits r (λ e f. free a (grind arith) (grind arith))
        ∙ l.fresh a m y p q r;
    future =
        λ m y p q. count-issued n m x y gs fits q (λ e f. absurd (grind arith)) ∙ l.future m y p q;
    once = λ g. elim (Bool-cases (word n x == g)) [
      | inl same ↦ omega (
        arith,
        count-head g (word n x) gs same,
        ap (λ h. count h gs) ((==_iff (word n x) g).0 same),
        unissued,
      )
      | inr other ↦ omega (arith, count-tail g (word n x) gs other, l.once g)
    ];
    known = λ g issued. elim (Bool-cases (word n x == g)) [
      | inl same ↦ (n, x, sym ((==_iff (word n x) g).0 same), small, fits, above, used)
      | inr other ↦ l.known g (λ none_yet. issued (count-tail g (word n x) gs other ∙ none_yet))
    ];
  }

  -- A node has more objects.
  pub Ledger-grow : (size' : ℕ → ℕ) → ((n : ℕ) → size n ≤ size' n) → Ledger size' lo hi gs
  Ledger-grow size' more = record {
    low = λ n. omega (arith, l.low n, more n);
    within = λ a n x p q. let b = l.within a n x p q in (b.0, omega (arith, b.1, more n));
    apart = l.apart;
    fresh = l.fresh;
    future = λ n x p q. l.future n x (omega (arith, p, more n)) q;
    once = l.once;
    known = λ g issued.
        let (n, x, same, small, fits, above, used) = l.known g issued in
        (n, x, same, small, fits, above, omega (arith, used, more n));
  }

  -- Numbers that were for later are given up.
  pub Ledger-shrink : (lo' : ℕ → ℕ → ℕ) → ((a n : ℕ) → lo a n ≤ lo' a n) → Ledger size lo' hi gs
  Ledger-shrink lo' more = record {
    low = l.low;
    within = λ a n x p q. l.within a n x (omega (arith, p, more a n)) q;
    apart = λ a b n x p q r s.
        l.apart a b n x (omega (arith, p, more a n)) q (omega (arith, r, more b n)) s;
    fresh = λ a n x p q. l.fresh a n x (omega (arith, p, more a n)) q;
    future = l.future;
    once = l.once;
    known = l.known;
  }

  -- `a` sets aside the next `k` numbers of `n`.
  module _ (a n k : ℕ) (size' : ℕ → ℕ) (lo' hi' : ℕ → ℕ → ℕ) (more : (m : ℕ) → size m ≤ size' m)
      (enough : size n + k ≤ size' n)
      (moved : (b m : ℕ)
        → ((a ≡ b) × (n ≡ m) × (lo' b m ≡ size n) × (hi' b m ≡ size n + k))
          ⊎ ((lo' b m ≡ lo b m) × (hi' b m ≡ hi b m))) where
    abbrev Moved : ℕ → ℕ → Type 0
    Moved b m =
        ((a ≡ b) × (n ≡ m) × (lo' b m ≡ size n) × (hi' b m ≡ size n + k))
        ⊎ ((lo' b m ≡ lo b m) × (hi' b m ≡ hi b m))

    size_below : {l' : ℕ} (m x : ℕ) → n ≡ m → l' ≤ x → l' ≡ size n → size n ≤ x
    size_below m x f p p' = omega (arith, p, p')

    beyond : (b m x : ℕ) → n ≡ m → size n ≤ x → lo b m ≤ x → x < hi b m → ⊥
    beyond b m x f p q r = omega (arith, p, (l.within b m x q r).1, ap size f)

    both-Moved :
        (b c m x : ℕ)
        → lo' b m ≤ x
        → x < hi' b m
        → lo' c m ≤ x
        → x < hi' c m
        → Moved b m
        → Moved c m
        → b ≡ c
    both-Moved b c m x p q r s (inl (e, f, p', q')) (inl (e', f', r', s')) = sym e ∙ e'
    both-Moved b c m x p q r s (inl (e, f, p', q')) (inr (r', s')) =
        absurd
          (beyond c m x f (size_below m x f p p') (omega (arith, r, r')) (omega (arith, s, s')))
    both-Moved b c m x p q r s (inr (p', q')) (inl (e', f', r', s')) =
        absurd
          (beyond b m x f' (size_below m x f' r r') (omega (arith, p, p')) (omega (arith, q, q')))
    both-Moved b c m x p q r s (inr (p', q')) (inr (r', s')) =
        l.apart b c m x (omega (arith, p, p')) (omega (arith, q, q')) (omega (arith, r, r'))
          (omega (arith, s, s'))

    pub Ledger-claim : Ledger size' lo' hi' gs
    Ledger-claim = record {
      low = λ m. omega (arith, l.low m, more m);
      within = λ b m x p q. elim (moved b m) [
        | inl (e, f, p', q') ↦ (
          omega (arith, l.low n, p, p'),
          subst (λ j. x < size' j) f (omega (arith, q, q', enough)),
        )
        | inr (p', q') ↦
            let w = l.within b m x (omega (arith, p, p')) (omega (arith, q, q')) in
            (w.0, omega (arith, w.1, more m))
      ];
      apart = λ b c m x p q r s. both-Moved b c m x p q r s (moved b m) (moved c m);
      fresh = λ b m x p q r. elim (moved b m) [
        | inl (e, f, p', q') ↦ l.future m x (subst (λ j. size j ≤ x) f (omega (arith, p, p'))) r
        | inr (p', q') ↦ l.fresh b m x (omega (arith, p, p')) (omega (arith, q, q')) r
      ];
      future = λ m x p q. l.future m x (omega (arith, p, more m)) q;
      once = l.once;
      known = (Ledger-grow size' more).known;
    }
