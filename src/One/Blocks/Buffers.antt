-- ===== src/One/Blocks/Buffers.antt =====
-- `db::acquire`, `db::release` and stores keep the sizes of the two buffers (include/one/db.h).
use ocr_vx.Prelude.{
  ℕ, ◌≡◌, refl, ◌∙◌, true, false, not, [], some, ltb, if◌then◌else◌, length, length-set,
  length-replicate, set, subst,
}
use ocr_vx.One.Types.{
  Object, db_object, Db, Mode, db_not_acquired, db_already_acquired, read_only_modified,
  out_of_bounds,
}
use ocr_vx.One.Logic.{
  Keeps, Keeps-bind, Keeps-then, Keeps-stop, Keeps-guard, Gives, Gives-bind, Gives-pure,
  Gives-guard, Gives-if,
}
use ocr_vx.One.Reads.{get_current_edt_guid-Keeps}
use ocr_vx.One.Db.{
  new_db, put_db, acquire, release, acquire_db, acquire_object, release_held, release_object,
  is_empty, was_modified, write_db, write_object, may_be_modified, is_read_only,
}
use ocr_vx.One.Blocks.Defs.{IsBlock, ObjectIsBlock, BlocksAreValid, put-Keeps, at-valid}

pub new_db-IsBlock : (len : ℕ) → IsBlock (new_db len)
unfolding new_db
new_db-IsBlock len = (length-replicate len 0, refl)

pub put_db-Keeps : (g : ℕ) (b : Db) → IsBlock b → Keeps BlocksAreValid (put_db g b)
unfolding put_db
put_db-Keeps g b h = put-Keeps g (db_object b) h

pub acquire-IsBlock :
    (b : Db) (mode : Mode) (owner : ℕ)
    → IsBlock b
    → Gives BlocksAreValid IsBlock (acquire b mode owner)
unfolding acquire
acquire-IsBlock b mode owner h = Gives-guard (not b.acquired) db_already_acquired λ free.
    Gives-guard (is_empty b.buffer_public) db_already_acquired λ gone.
      Gives-pure
        (record b {
          acquired = true;
          acquire_mode = mode;
          owner = owner;
          buffer_public = b.buffer_private;
        })
        (h.0, h.0)

pub public_size : (b : Db) → b.acquired ≡ true → IsBlock b → length b.buffer_public ≡ b.size
public_size b held h = subst (λ a. length b.buffer_public ≡ (if a then b.size else 0)) held (h.1)

pub release-IsBlock : (b : Db) → IsBlock b → Gives BlocksAreValid IsBlock (release b)
unfolding release
release-IsBlock b h = Gives-guard b.acquired db_not_acquired λ held.
    Gives-if (may_be_modified b.acquire_mode)
      (Gives-pure
        (record b { buffer_private = b.buffer_public; buffer_public = []; acquired = false })
        (public_size b held h, refl))
      (Gives-guard (is_read_only b.acquire_mode) read_only_modified λ mode.
        Gives-guard (not (was_modified b)) read_only_modified
          λ same. Gives-pure (record b { buffer_public = []; acquired = false }) (h.0, refl))

pub acquire_db-Keeps : (g : ℕ) (mode : Mode) → Keeps BlocksAreValid (acquire_db g mode)
unfolding acquire_db acquire_object
acquire_db-Keeps g mode = at-valid g _ go
  where
    go : (o : Object) → ObjectIsBlock (some o) → Keeps BlocksAreValid (acquire_object g mode o)
    go (db_object b) h =
        Keeps-bind get_current_edt_guid-Keeps
          λ owner. Gives-bind (acquire-IsBlock b mode owner h) (put_db-Keeps g)
    go _ h = Keeps-stop _

pub release_held-Keeps : (g : ℕ) → Keeps BlocksAreValid (release_held g)
unfolding release_held release_object
release_held-Keeps g = at-valid g _ go
  where
    go : (o : Object) → ObjectIsBlock (some o) → Keeps BlocksAreValid (release_object g o)
    go (db_object b) h = Gives-bind (release-IsBlock b h) (put_db-Keeps g)
    go _ h = Keeps-stop _

pub write_db-Keeps : (g offset byte : ℕ) → Keeps BlocksAreValid (write_db g offset byte)
unfolding write_db write_object
write_db-Keeps g offset byte = at-valid g _ go
  where
    go : (o : Object) → ObjectIsBlock (some o) → Keeps BlocksAreValid (write_object g offset byte o)
    go (db_object b) h = Keeps-then (Keeps-guard b.acquired db_not_acquired) (
        Keeps-then (Keeps-guard (ltb offset (length b.buffer_public)) out_of_bounds) (
          put_db-Keeps g (record b { buffer_public = set b.buffer_public offset byte })
            (h.0, length-set b.buffer_public offset byte ∙ h.1)))
    go _ h = Keeps-stop _
