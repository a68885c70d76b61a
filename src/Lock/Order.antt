-- ===== src/Lock/Order.antt =====
-- The order of lockfile entries, `byNameThenVersion`.
use akuapkg.Common.{
  ◌≡◌, ◌≢◌, ◌&&◌, Text, Ordering, true, false, text_eq, arith, compare_text-flip, compare_text_refl,
  text_eq_iff,
}
use akuapkg.Lock.{LockedPackage, by_name_then_version, is_at}

module _ (a b : LockedPackage) where
  pub by_name_then_version_total :
      by_name_then_version a b ≡ Ordering.gt → by_name_then_version b a ≢ Ordering.gt
  unfolding by_name_then_version
  by_name_then_version_total h =
      ground (arith, compare_text-flip a.name b.name, compare_text-flip a.version b.version)

-- entries at one name and version tie
pub by_name_then_version_apart :
    (name version : Text) (a b : LockedPackage)
    → by_name_then_version a b ≡ Ordering.gt
    → is_at name version a ≡ true
    → is_at name version b ≡ false
unfolding by_name_then_version
by_name_then_version_apart name version a b h k = ground (
  arith,
  text_eq_iff a.name name,
  text_eq_iff a.version version,
  text_eq_iff b.name name,
  text_eq_iff b.version version,
  compare_text_refl name,
  compare_text_refl version,
)

-- equal names and versions
pub is_at_sound : (a b c d : Text) → text_eq a b && text_eq c d ≡ true → (a ≡ b) × (c ≡ d)
is_at_sound a b c d h = ground (arith, text_eq_iff a b, text_eq_iff c d)
