-- ===== src/One/Blocks/RoundTrip.antt =====
-- Bytes that an EDT stores in a block and a later one loads: `db::acquire` and `db::release`
-- (include/one/db.h) with the stores and loads between them.
use ocr_vx.Prelude.{
  ℕ, zero, suc, ◌≡◌, refl, sym, Bool, true, false, ◌&&◌, List, [], ◌∷◌, some, ◌==◌, ==_refl,
  get_elem?, set, if◌then◌else◌, Bool-cases, Option-cases, inl, inr, length, ltb, get_elem?-bound,
  get_elem?-set,
}
use ocr_vx.One.Types.{
  Runtime, Db, Mode, db_object, read_only_modified, null_guid, db_mode_null, db_mode_const,
  db_mode_rw, db_mode_ew, db_mode_ro,
}
use ocr_vx.One.Monad.{ok, fault, ◌>>◌, get, as_db, put, update}
use ocr_vx.One.Db.{
  same_bytes, was_modified, may_be_modified, is_read_only, acquire, release, get_db, put_db,
  get_current_edt_guid, acquire_object, acquire_db, release_object, release_held, write_object,
  write_db, at_or_fault, read_db,
}

-- The state in which the block `g` is `b`.
abbrev pub with_db : Runtime → ℕ → Db → Runtime
with_db s g b = record s { objects = update s.objects g (some (db_object b)) }

same_bytes_refl : (xs : List ℕ) → same_bytes xs xs ≡ true
unfolding same_bytes
same_bytes_refl [] = refl
same_bytes_refl (x ∷ xs) = rw (==_refl x) (same_bytes_refl xs)

some_same : (x y : ℕ) → some x ≡ some y → x ≡ y
some_same x y h = cc

and_true : (b : Bool) → (b && true) ≡ b
and_true true = refl
and_true false = refl

-- A store of the byte that stands there already leaves the bytes the same, and no other store does.
same_bytes-set :
    (xs : List ℕ) (i v old : ℕ)
    → get_elem? xs i ≡ some old
    → same_bytes xs (set xs i v) ≡ (old == v)
unfolding same_bytes
same_bytes-set [] i v old h = cc
same_bytes-set (x ∷ xs) zero v old h =
    rw (same_bytes_refl xs, some_same x old h) (and_true (old == v))
same_bytes-set (x ∷ xs) (suc i) v old h = rw (==_refl x) (same_bytes-set xs i v old h)

found : (t : Runtime) (g : ℕ) (c : Db) → (with_db t g c).objects g ≡ some (db_object c)
found t g c = rw (==_refl g)

store_at :
    (t : Runtime) (g : ℕ) (c : Db) (i v : ℕ)
    → t.objects g ≡ some (db_object c)
    → c.acquired ≡ true
    → ltb i (length c.buffer_public) ≡ true
    → write_db g i v t ≡ ok (tt, with_db t g (record c { buffer_public = set c.buffer_public i v }))
unfolding write_db get write_object put_db put
store_at t g c i v holds held inside = rw (holds, get) (rw held (rw inside))

release_writable :
    (t : Runtime) (g : ℕ) (c : Db)
    → t.objects g ≡ some (db_object c)
    → c.acquired ≡ true
    → may_be_modified c.acquire_mode ≡ true
    → release_held g t
      ≡ ok (
        tt,
        with_db t g
            (record c { buffer_private = c.buffer_public; buffer_public = []; acquired = false }),
      )
unfolding release_held get release_object put_db put release
release_writable t g c holds held writable = rw (holds, get) (rw held (rw writable))

current_owner : (t : Runtime) → (owner : ℕ) × (get_current_edt_guid t ≡ ok (owner, t))
unfolding get_current_edt_guid
current_owner t = elim (Option-cases t.this_edt) [
  | inl outside ↦ (null_guid, simp (outside, get_current_edt_guid))
  | inr (e, inside) ↦ (e.guid, simp (inside, get_current_edt_guid))
]

acquire_free :
    (t : Runtime) (g : ℕ) (c : Db) (mode : Mode)
    → t.objects g ≡ some (db_object c)
    → c.acquired ≡ false
    → c.buffer_public ≡ []
    → (owner : ℕ) × (acquire_db g mode t
        ≡ ok (
          tt,
          with_db t g (record c {
            acquired = true;
            acquire_mode = mode;
            owner = owner;
            buffer_public = c.buffer_private;
          }),
        ))
unfolding acquire_db get acquire_object put_db put acquire
acquire_free t g c mode holds free gone =
    let (owner, who) = current_owner t in (owner, rw (holds, get) (rw who (rw free (rw gone))))

load_at :
    (t : Runtime) (g : ℕ) (c : Db) (j w : ℕ)
    → t.objects g ≡ some (db_object c)
    → c.acquired ≡ true
    → get_elem? c.buffer_public j ≡ some w
    → read_db g j t ≡ ok (w, t)
unfolding read_db get_db get as_db at_or_fault
load_at t g c j w holds held there = rw (holds, get) (rw held (rw (there, at_or_fault)))

module _ (s : Runtime) (g : ℕ) (b : Db) (i v j old : ℕ) (holds : s.objects g ≡ some (db_object b))
    (held : b.acquired ≡ true) (inside : ltb i (length b.buffer_public) ≡ true) where
  -- What an EDT stores in a block that it holds in a writable mode is what the next holder loads,
  -- in every mode: after the store at offset `i`, the release and the next acquisition, the load at
  -- an offset `j` of the block returns the stored byte at `i` and the old byte elsewhere.
  pub store-release-acquire-load :
      (mode : Mode)
      → may_be_modified b.acquire_mode ≡ true
      → get_elem? b.buffer_public j ≡ some old
      → (t : Runtime) × ((write_db g i v >> release_held g >> acquire_db g mode >> read_db g j) s
          ≡ ok (if i == j then v else old, t))
  store-release-acquire-load mode writable there =
      let changed = record b { buffer_public = set b.buffer_public i v } in
      let closed = record changed {
        buffer_private = set b.buffer_public i v;
        buffer_public = [];
        acquired = false;
      } in
      let s1 = with_db s g changed in
      let s2 = with_db s1 g closed in
      let (owner, again) = acquire_free s2 g closed mode (found s1 g closed) refl refl in
      let opened = record closed {
        acquired = true;
        acquire_mode = mode;
        owner = owner;
        buffer_public = set b.buffer_public i v;
      } in
      (
        with_db s2 g opened,
        rw (store_at s g b i v holds held inside) (
            rw (release_writable s1 g changed (found s g changed) held writable) (
              rw again (
                load_at (with_db s2 g opened) g opened j (if i == j then v else old)
                  (found s2 g opened) refl
                  (get_elem?-set b.buffer_public i j v old inside there)))),
      )

no_write_back : (mode : Mode) → is_read_only mode ≡ true → may_be_modified mode ≡ false
no_write_back db_mode_const h = refl
no_write_back db_mode_ro h = refl
no_write_back db_mode_null h = refl
no_write_back db_mode_rw h = cc
no_write_back db_mode_ew h = cc

same_bytes-stored :
    (xs ys : List ℕ) (i v old : ℕ)
    → ys ≡ xs
    → get_elem? ys i ≡ some old
    → same_bytes xs (set ys i v) ≡ (old == v)
same_bytes-stored xs ys i v old h there = rw (sym h) (same_bytes-set ys i v old there)

-- The release of a block that is held for reading only stops the program when a byte was changed,
-- and else closes it: where the public copy was the block's content before a store, the release
-- after the store returns if and only if the stored byte is the one that stood there.
pub store-release_read_only :
    (s : Runtime) (g : ℕ) (b : Db) (i v old : ℕ)
    → s.objects g ≡ some (db_object b)
    → b.acquired ≡ true
    → is_read_only b.acquire_mode ≡ true
    → b.buffer_public ≡ b.buffer_private
    → get_elem? b.buffer_public i ≡ some old
    → (write_db g i v >> release_held g) s ≡ (
        if old == v
        then ok (
          tt,
          with_db
              (with_db s g (record b { buffer_public = set b.buffer_public i v }))
              g
              (record b { buffer_public = []; acquired = false }),
        )
        else fault read_only_modified)
unfolding release_held get release_object put_db put release was_modified
store-release_read_only s g b i v old holds held mode same there =
    rw (store_at s g b i v holds held (get_elem?-bound b.buffer_public i old there)) (
      rw (found s g (record b { buffer_public = set b.buffer_public i v }), get)
        (rw held (
          rw (no_write_back b.acquire_mode mode) (
            rw mode (
              rw (same_bytes-stored b.buffer_private b.buffer_public i v old same there)
                (elim (Bool-cases (old == v)) [ inl e ↦ rw e | inr e ↦ rw e ]))))))
