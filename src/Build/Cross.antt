-- ===== src/Build/Cross.antt =====
-- Cross builds of setup.py: the two places that compare the architectures.
use talyn.Base.{
  ◌&&◌, not, Bool, inr, length, inl, drop, Bool-cases, if◌then◌else◌, refl, none, some, true, [],
  ◌∷◌, ℕ, ◌≡◌, ◌++◌, arith, ◌↔◌, Option,
}
use talyn.Base.Text.{Text, codes, same, is_prefix}
use talyn.Build.{
  Setting, is_cross_build, module_suffix, cross_ext_suffix, replace_first, guest_name, host_name,
  first_part, set_text,
}

same_iff : (s t : Text) → (same s t ≡ true) ↔ (s ≡ t)
same_iff [] [] = (λ h. refl, λ h. refl)
same_iff [] (d ∷ t) = (λ h. absurd (cc), λ h. absurd (cc))
same_iff (c ∷ s) [] = (λ h. absurd (cc), λ h. absurd (cc))
same_iff (c ∷ s) (d ∷ t) =
    let rest = same_iff s t in (λ h. ground (arith, h, rest.0), λ h. ground (arith, h, rest.1))

-- The two spellings of the host's architecture come to the same.
host-guest_name : (s : Text) → host_name s ≡ guest_name s
unfolding host_name guest_name
host-guest_name s = ground (arith, same_iff s (codes "aarch64"))

-- `front` before the first `old` in a text.
abbrev pub is_first : Text → Text → Text → Bool
is_first old [] rest = true
is_first old (c ∷ front) rest =
    not (is_prefix old (c ∷ (front ++ (old ++ rest)))) && is_first old front rest

is_prefix-append : (w t : Text) → is_prefix w (w ++ t) ≡ true
is_prefix-append [] t = refl
is_prefix-append (c ∷ w) t = ground (arith, is_prefix-append w t)

drop-length : (w t : Text) → drop (length w) (w ++ t) ≡ t
drop-length [] t = refl
drop-length (c ∷ w) t = drop-length w t

replace_first_at :
    (old new front rest : Text) (c : ℕ)
    → is_first (c ∷ old) front rest ≡ true
    → replace_first (c ∷ old) new (front ++ ((c ∷ old) ++ rest)) ≡ front ++ (new ++ rest)
unfolding replace_first
replace_first_at old new [] rest c h =
    ground (arith, is_prefix-append old rest, drop-length old rest)
replace_first_at old new (d ∷ front) rest c h =
    ground (arith, h, replace_first_at old new front rest c)

set_text-some : (o : Option Text) (t : Text) → set_text o ≡ some t → o ≡ some t
set_text-some none t h = absurd (cc)
set_text-some (some []) t h = absurd (cc)
set_text-some (some (c ∷ s)) t h = h

-- The two comparisons agree, so that a cross build always renames.
pub module_suffix_lem :
    (e : Setting) (t : Text)
    → set_text e.zig_target ≡ some t
    → module_suffix e
      ≡ some (
          if same (guest_name e.machine) (guest_name (first_part t))
          then e.ext_suffix
          else replace_first (guest_name e.machine) (guest_name (first_part t)) e.ext_suffix)
unfolding module_suffix is_cross_build cross_ext_suffix
module_suffix_lem e t h =
    ground (arith, h, set_text-some e.zig_target t h, host-guest_name e.machine)

-- The suffix of the native module names the architecture of the target, with arm64 read as aarch64,
-- where the suffix of the running Python first names that of the machine, and is otherwise the same,
-- whether or not the build is a cross build.
pub module_suffix-renames :
    (e : Setting) (t old front rest : Text) (c : ℕ)
    → set_text e.zig_target ≡ some t
    → guest_name e.machine ≡ c ∷ old
    → e.ext_suffix ≡ front ++ ((c ∷ old) ++ rest)
    → is_first (c ∷ old) front rest ≡ true
    → module_suffix e ≡ some (front ++ (guest_name (first_part t) ++ rest))
module_suffix-renames e t old front rest c h m s first =
    elim (Bool-cases (same (guest_name e.machine) (guest_name (first_part t)))) [
      | inl g ↦ ground (
        arith,
        module_suffix_lem e t h,
        g,
        s,
        m,
        (same_iff (guest_name e.machine) (guest_name (first_part t))).0 g,
      )
      | inr g ↦ ground (
        arith,
        module_suffix_lem e t h,
        g,
        s,
        m,
        replace_first_at old (guest_name (first_part t)) front rest c first,
      )
    ]
