-- ===== src/Distributed/Objects.antt =====
-- The objects of a node are found under their GUIDs (include/distributed/object_repository.h).
use ocr_vx.Prelude.{
  ℕ, ◌/◌, ◌%◌, ◌^◌, ◌<◌, ◌≡◌, ◌∙◌, sym, ap, subst, ◌⊎◌, inl, inr, refl, arith, Bool, true, false,
  Bool-cases, Option, none, some, length, ==_iff, ◌==◌, ltb, get_elem?, set, get_elem?-set,
  if◌then◌else◌, bit_and-mask, bit_and-mask_right, get_elem?-bound,
}
use ocr_vx.Distributed.Guid.{is_mapped, get_flag, get_node_id, get_object_id}
use ocr_vx.Prelude.Options.{require, >>=-eq-some, some-inj}
use ocr_vx.Distributed.Repository.{
  Repository, home_of, owned_here, set_object, get_object, get_unmapped, remove_object,
}

-- The parts of a GUID without the flag.
object_of : (g : ℕ) → is_mapped 32 g ≡ false → get_object_id 32 g ≡ some (g % 2 ^ 31)
unfolding get_object_id
object_of g h = rw h (ap some (bit_and-mask 31 g))

node_of :
    (nodes g : ℕ) → is_mapped 32 g ≡ false → get_node_id 32 nodes g ≡ some (g / 2 ^ 31 % 2 ^ 32)
unfolding get_node_id
node_of nodes g h = rw h (ap some (bit_and-mask_right 32 (g / 2 ^ 31)))

without_flag : (g : ℕ) → g < 2 ^ 64 → is_mapped 32 g ≡ false → g < 2 ^ 63
unfolding is_mapped get_flag
without_flag g p h = ground (arith, h)

require-true : (b : Bool) {u : Unit {0}} → require b ≡ some u → b ≡ true
require-true true h = refl
require-true false h = cc

true≢false : true ≡ false → ⊥
true≢false h = cc

module _ (nodes me g : ℕ) where
  owned_here-node :
      {u : Unit {0}} → owned_here nodes me g ≡ some u → get_node_id 32 nodes g ≡ some me
  unfolding owned_here home_of
  owned_here-node h =
      let (node, on_node, same) = >>=-eq-some (get_node_id 32 nodes g) _ h in
      on_node ∙ ap some ((==_iff node me).0 (require-true (node == me) same))

-- Two GUIDs of one node with one number are the same.
same_word :
    (nodes me g h x : ℕ)
    → g < 2 ^ 64
    → h < 2 ^ 64
    → is_mapped 32 g ≡ false
    → is_mapped 32 h ≡ false
    → get_node_id 32 nodes g ≡ some me
    → get_node_id 32 nodes h ≡ some me
    → get_object_id 32 g ≡ some x
    → get_object_id 32 h ≡ some x
    → g ≡ h
same_word nodes me g h x p q clear clear' n n' o o' = omega (
  arith,
  some-inj (sym (node_of nodes g clear) ∙ n),
  some-inj (sym (node_of nodes h clear') ∙ n'),
  some-inj (sym (object_of g clear) ∙ o),
  some-inj (sym (object_of h clear') ∙ o'),
  without_flag g p clear,
  without_flag h q clear',
)

unmapped : (g x : ℕ) → get_object_id 32 g ≡ some x → is_mapped 32 g ≡ false
unfolding get_object_id
unmapped g x h = elim (Bool-cases (is_mapped 32 g)) [
  | inl mapped ↦ absurd (let e = rw mapped at h in cc)
  | inr clear ↦ clear
]

module _ (nodes me g h : ℕ) (p : g < 2 ^ 64) (q : h < 2 ^ 64) where
  same_test :
      (x y : ℕ)
      → get_node_id 32 nodes g ≡ some me
      → get_node_id 32 nodes h ≡ some me
      → get_object_id 32 g ≡ some x
      → get_object_id 32 h ≡ some y
      → (g == h) ≡ (x == y)
  same_test x y n n' o o' = elim (Bool-cases (x == y)) [
    | inl same ↦
        let e = (==_iff x y).0 same in
        let f =
          same_word nodes me g h x p q (unmapped g x o) (unmapped h y o') n n' o
            (o' ∙ ap some (sym e)) in
        (==_iff g h).1 f ∙ sym same
    | inr differ ↦ (elim (Bool-cases (g == h)) [
      | inl same ↦
          let e = (==_iff g h).0 same in
          absurd (
            true≢false
              (sym ((==_iff x y).1 (some-inj (sym o ∙ ap (get_object_id 32) e ∙ o'))) ∙ differ))
      | inr other ↦ other ∙ sym differ
    ])
  ]

  flag_differs : (x : ℕ) → get_object_id 32 g ≡ some x → is_mapped 32 h ≡ true → (g == h) ≡ false
  flag_differs x o mapped = elim (Bool-cases (g == h)) [
    | inl same ↦
        absurd
          (true≢false (sym mapped ∙ ap (is_mapped 32) (sym ((==_iff g h).0 same)) ∙ unmapped g x o))
    | inr other ↦ other
  ]

module _ {A : Type 0} (nodes me g h : ℕ) (p : g < 2 ^ 64) (q : h < 2 ^ 64) where
  -- What both calls do to the vector.
  Overwritten : Option A → Repository A → Repository A → Type 0
  Overwritten ptr r r' =
      (x : ℕ) × (get_node_id 32 nodes g ≡ some me)
      × (get_object_id 32 g ≡ some x)
      × (ltb x (length r.data_) ≡ true)
      × (r' ≡ record r { data_ = set r.data_ x ptr })

  set_object-Overwritten :
      (ptr : Option A) (r r' : Repository A)
      → set_object nodes me g ptr r ≡ some r'
      → Overwritten ptr r r'
  unfolding set_object Overwritten
  set_object-Overwritten ptr r r' e =
      let (u, own, e₁) = >>=-eq-some (owned_here nodes me g) _ e in
      let (x, number, e₂) = >>=-eq-some (get_object_id 32 g) _ e₁ in
      let (u', bound, e₃) = >>=-eq-some (require (ltb x (length r.data_))) _ e₂ in
      (x, owned_here-node nodes me g own, number, require-true _ bound, sym (some-inj e₃))

  remove_object-Overwritten :
      (res : Option A) (r r' : Repository A)
      → remove_object nodes me g r ≡ some (res, r')
      → Overwritten none r r'
  unfolding remove_object Overwritten
  remove_object-Overwritten res r r' e =
      let (u, own, e₁) = >>=-eq-some (owned_here nodes me g) _ e in
      let (x, number, e₂) = >>=-eq-some (get_object_id 32 g) _ e₁ in
      let (old, there, e₃) = >>=-eq-some (get_elem? r.data_ x) _ e₂ in
      (
        x,
        owned_here-node nodes me g own,
        number,
        get_elem?-bound r.data_ x old there,
        sym (ap (λ p. p.1) (some-inj e₃)),
      )

  Overwritten-get :
      (ptr old : Option A) (r r' : Repository A)
      → Overwritten ptr r r'
      → get_object nodes me h r ≡ some old
      → get_object nodes me h r' ≡ some (if g == h then ptr else old)
  unfolding Overwritten get_object get_unmapped
  Overwritten-get ptr old r r' (x, on_node, number, bound, same) e =
      let (u, own, rest) = >>=-eq-some (owned_here nodes me h) _ e in
      elim (Bool-cases (is_mapped 32 h)) [
        | inl mapped ↦
            rw (same, own, mapped, flag_differs nodes me g h p q x number mapped)
              (rw mapped at rest)
        | inr clear ↦
            let (y, number', there) =
              >>=-eq-some (get_object_id 32 h) (λ oid. get_elem? r.data_ oid) (rw clear at rest) in
            rw
              (
                same,
                own,
                clear,
                number',
                same_test nodes me g h p q x y on_node (owned_here-node nodes me h own) number
                    number',
              )
              (get_elem?-set r.data_ x y ptr old bound there)
      ]

  -- After the object of a GUID is set, or removed and so null, that GUID gives what was set, and each
  -- other GUID of the node, mapped ones too, gives the object that it gave before. (GUIDs are 64-bit
  -- words.)
  pub set_object-get_object :
      (ptr old : Option A) (r r' : Repository A)
      → (set_object nodes me g ptr r ≡ some r')
        ⊎ ((ptr ≡ none) × (res : Option A) × (remove_object nodes me g r ≡ some (res, r')))
      → get_object nodes me h r ≡ some old
      → get_object nodes me h r' ≡ some (if g == h then ptr else old)
  set_object-get_object ptr old r r' (inl written) e =
      Overwritten-get ptr old r r' (set_object-Overwritten ptr r r' written) e
  set_object-get_object ptr old r r' (inr (null, res, removed)) e =
      subst (λ t. get_object nodes me h r' ≡ some (if g == h then t else old)) (sym null)
        (Overwritten-get none old r r' (remove_object-Overwritten res r r' removed) e)
