-- ===== src/Distributed/Cache/Words.antt =====
-- What the parts of a reservation do to the words: `guid_template` of include/distributed/guid.h with
-- 32 bits for the node, the pushes of object_repository.h and the block of object_cache.h.
use ocr_vx.Prelude.{
  true, ℕ, ◌+◌, ◌^◌, ◌<◌, ◌≡◌, ◌∙◌, sym, ap, subst, ◌⊎◌, inl, inr, refl, arith, List, ◌==◌, false,
  Bool-cases, ◌&&◌, Option, none, some, ltb, length, length-append, ==_iff,
}
use ocr_vx.Distributed.Guid.{make_guid, get_object_id}
use ocr_vx.Distributed.Packing.{make_guid_lem, make_guid-roundtrip}
use ocr_vx.Prelude.Options.{>>=-eq-some, some-inj}
use ocr_vx.Distributed.Repository.{Repository, push_objects}
use ocr_vx.Distributed.Cache.{NodeDataContainer, take_next, refill, guid_lt, preallocate_count}
use ocr_vx.Distributed.Cache.Ledger.{word}

refused : (n x : ℕ) → (ltb n (2 ^ 32) && ltb x (2 ^ 31)) ≡ false → make_guid 32 n x ≡ none
unfolding make_guid
refused n x h = rw h refl

pub make_guid-word :
    (n x g : ℕ) → make_guid 32 n x ≡ some g → (g ≡ word n x) × (n < 2 ^ 32) × (x < 2 ^ 31)
make_guid-word n x g h = elim (Bool-cases (ltb n (2 ^ 32) && ltb x (2 ^ 31))) [
  | inl fits ↦
      let p : n < 2 ^ 32 = ground (arith, fits) in
      let q : x < 2 ^ 31 = ground (arith, fits) in
      let e : make_guid 32 n x ≡ some (word n x) = make_guid_lem 32 (omega arith) n x p q in
      (cc, p, q)
  | inr not_fits ↦ absurd (let e = refused n x not_fits in cc)
]

pub get_object_id-word : (n x : ℕ) → n < 2 ^ 32 → x < 2 ^ 31 → get_object_id 32 (word n x) ≡ some x
get_object_id-word n x p q =
    let (g, made, _, _, read) = make_guid-roundtrip 32 (omega arith) 1 n x p q in
    subst (λ w. get_object_id 32 w ≡ some x) (make_guid-word n x g made).0 read

pub guid_lt_irrefl : (g : ℕ) → guid_lt g g ≡ false
unfolding guid_lt
guid_lt_irrefl g = ground arith

pub guid_lt-word :
    (n x y : ℕ) → x < y → n < 2 ^ 32 → y < 2 ^ 31 → guid_lt (word n x) (word n y) ≡ true
unfolding guid_lt
guid_lt-word n x y h p q = ground arith

pub push_objects-Pushes :
    {A : Type 0} (n : ℕ) (ptrs : List (Option A)) (r : Repository A) (p : ℕ × Repository A)
    → push_objects n ptrs r ≡ some p
    → (p.0 ≡ word n (length r.data_))
      × (length p.1.data_ ≡ length r.data_ + length ptrs)
      × (n < 2 ^ 32)
      × (length r.data_ < 2 ^ 31)
unfolding push_objects
push_objects-Pushes n ptrs r p h =
    let (g, made, given) = >>=-eq-some (make_guid 32 n (length r.data_)) _ h in
    let (same, small, fits) = make_guid-word n (length r.data_) g made in
    subst
      (λ q.
        (q.0 ≡ word n (length r.data_))
        × (length q.1.data_ ≡ length r.data_ + length ptrs)
        × (n < 2 ^ 32)
        × (length r.data_ < 2 ^ 31))
      (some-inj given) (same, length-append r.data_ ptrs, small, fits)

-- The numbers `lo` up to `hi` are left.
pub record Block (n : ℕ) (c : NodeDataContainer) (lo hi : ℕ) : Type 0 where
  pub next_eq : c.preallocation_next ≡ word n lo
  pub max_eq : c.preallocation_max ≡ word n hi
  pub nonempty : lo < hi
  pub node_fits : n < 2 ^ 32
  pub fits : hi < 2 ^ 31

abbrev pub Left : ℕ → NodeDataContainer → ℕ → ℕ → Type 0
Left n c lo hi = ((c.preallocation_next ≡ c.preallocation_max) × (lo ≡ hi)) ⊎ Block n c lo hi

pub take_next-Left :
    (n lo hi : ℕ) (c : NodeDataContainer) (p : ℕ × NodeDataContainer)
    → Block n c lo hi
    → take_next n c ≡ some p
    → (p.0 ≡ word n lo) × (p.1.preallocations_mutex ≡ false) × Left n p.1 (lo + 1) hi
unfolding take_next
take_next-Left n lo hi c p b h =
    let (oid, read, made) = >>=-eq-some (get_object_id 32 c.preallocation_next) _ h in
    let (next, packed, given) = >>=-eq-some (make_guid 32 n (oid + 1)) _ made in
    let number : lo ≡ oid = some-inj (
      sym (get_object_id-word n lo b.node_fits (omega (arith, b.nonempty, b.fits)))
      ∙ ap (get_object_id 32) (sym b.next_eq)
      ∙ read) in
    let same : next ≡ word n (lo + 1) =
      (make_guid-word n (oid + 1) next packed).0 ∙ ap (λ x. word n (x + 1)) (sym number) in
    subst (λ q. (q.0 ≡ word n lo) × (q.1.preallocations_mutex ≡ false) × Left n q.1 (lo + 1) hi)
      (some-inj given)
      (
        b.next_eq,
        refl,
        elim (Bool-cases (lo + 1 == hi)) [
          | inl last ↦
              let e = (==_iff (lo + 1) hi).0 last in inl (same ∙ ap (word n) e ∙ sym b.max_eq, e)
          | inr more ↦ inr (record {
            next_eq = same;
            max_eq = b.max_eq;
            nonempty = ground (arith, more, b.nonempty);
            node_fits = b.node_fits;
            fits = b.fits;
          })
        ],
      )

pub refill-Block :
    (n x : ℕ) (c c' : NodeDataContainer)
    → n < 2 ^ 32
    → x < 2 ^ 31
    → refill n (word n x) c ≡ some c'
    → Block n c' x (x + preallocate_count)
unfolding refill
refill-Block n x c c' small fits h =
    let (oid, read, made) = >>=-eq-some (get_object_id 32 (word n x)) _ h in
    let (limit, packed, given) = >>=-eq-some (make_guid 32 n (oid + preallocate_count)) _ made in
    let number : x ≡ oid = some-inj (sym (get_object_id-word n x small fits) ∙ read) in
    let (same, _, bound) = make_guid-word n (oid + preallocate_count) limit packed in
    subst (λ d. Block n d x (x + preallocate_count)) (some-inj given)
      (record {
        next_eq = refl;
        max_eq = same ∙ ap (λ y. word n (y + preallocate_count)) (sym number);
        nonempty = omega arith;
        node_fits = small;
        fits = omega (arith, bound, number);
      })
