-- ===== src/InputFlags/Names.antt =====
-- No two options of a command share a name, and none takes a reserved one.
use akuapkg.Common.{
  ◌≡◌, refl, ap, subst, Text, Bool, true, false, List, [], ◌∷◌, ◌++◌, filter, map, arith,
}
use akuapkg.Common.Result.{ok, fail_if, >>=-eq-ok}
use akuapkg.InputFlags.{
  InputFlag, FlagProblem, FlagTarget, FlagKind, flag_used, file_flag_used, is_used, flag_name,
  assign_flags, file_flag, take_file_flags, is_secret, operation_flags,
}

-- none of `names` is reserved, among `taken`, or the same as one before it
abbrev pub Fresh : List Text → List Text → Type 0
Fresh taken [] = Unit
Fresh taken (n ∷ names) = (is_used taken n ≡ false) × Fresh (n ∷ taken) names

abbrev push_all : List Text → List Text → List Text
push_all taken [] = taken
push_all taken (n ∷ names) = push_all (n ∷ taken) names

Fresh-append :
    (taken xs ys : List Text)
    → Fresh taken xs
    → Fresh (push_all taken xs) ys
    → Fresh taken (xs ++ ys)
Fresh-append taken [] ys h k = k
Fresh-append taken (x ∷ xs) ys h k = (h.0, Fresh-append (x ∷ taken) xs ys h.1 k)

abbrev pub flag_names : List InputFlag → List Text
flag_names flags = map (λ (flag : InputFlag). flag.name) flags

-- every name that the command line accepts for the flags
abbrev pub option_names : List InputFlag → List Text
option_names flags = flag_names flags ++ map file_flag (filter is_secret flags)

-- a flag without its name
abbrev pub field_of : InputFlag → FlagTarget × Text × FlagKind × Bool × Bool
field_of flag = (flag.target, flag.key, flag.kind, flag.required, flag.secret)

passed : (b : Bool) (problem : FlagProblem) (u : Unit {0}) → fail_if b problem ≡ ok u → b ≡ false
passed true problem u h = absurd (ground arith)
passed false problem u h = refl

assign_flags-Fresh :
    (id : Text) (taken : List Text) (cs : List InputFlag) (done : List Text × List InputFlag)
    → assign_flags id taken cs ≡ ok done
    → Fresh taken (flag_names done.1)
      × (done.0 ≡ push_all taken (flag_names done.1))
      × (map field_of done.1 ≡ map field_of cs)
unfolding assign_flags
assign_flags-Fresh id taken [] done h =
    let e : (taken, []) ≡ done = ground arith in
    subst
      (λ d.
        Fresh taken (flag_names d.1)
        × (d.0 ≡ push_all taken (flag_names d.1))
        × (map field_of d.1 ≡ []))
      e (tt, refl, refl)
assign_flags-Fresh id taken (c ∷ cs) done h =
    let name = flag_name taken c in
    let (u, h1, k1) =
      >>=-eq-ok (fail_if (is_used taken name) (flag_used id c.target c.key name)) _ h in
    let (d, h2, k2) = >>=-eq-ok (assign_flags id (name ∷ taken) cs) _ k1 in
    let (fresh, pushed, same) = assign_flags-Fresh id (name ∷ taken) cs d h2 in
    let e : (d.0, record c { name = name } ∷ d.1) ≡ done = ground arith in
    subst
      (λ r.
        Fresh taken (flag_names r.1)
        × (r.0 ≡ push_all taken (flag_names r.1))
        × (map field_of r.1 ≡ map field_of (c ∷ cs)))
      e ((passed (is_used taken name) _ u h1, fresh), pushed, ap (◌∷◌ (field_of c)) same)

take_file_flags-Fresh :
    (id : Text) (taken end : List Text) (flags : List InputFlag)
    → take_file_flags id taken flags ≡ ok end
    → Fresh taken (map file_flag flags)
unfolding take_file_flags
take_file_flags-Fresh id taken end [] h = tt
take_file_flags-Fresh id taken end (flag ∷ flags) h =
    let (u, h1, k1) =
      >>=-eq-ok
        (fail_if (is_used taken (file_flag flag)) (file_flag_used id flag.name (file_flag flag))) _
        h in
    (
      passed (is_used taken (file_flag flag)) _ u h1,
      take_file_flags-Fresh id (file_flag flag ∷ taken) end flags k1,
    )

-- If the flags of an operation can be named, each candidate has become one flag with its target,
-- key and kind, and of all names that the command line accepts, those of the file flags of secrets
-- included, none is reserved and no two are equal.
pub operation_flags-Fresh :
    (id : Text) (candidates flags : List InputFlag)
    → operation_flags id candidates ≡ ok flags
    → Fresh [] (option_names flags) × (map field_of flags ≡ map field_of candidates)
unfolding operation_flags
operation_flags-Fresh id candidates flags h =
    let (done, h1, k1) = >>=-eq-ok (assign_flags id [] candidates) _ h in
    let (taken, h2, k2) = >>=-eq-ok (take_file_flags id done.0 (filter is_secret done.1)) _ k1 in
    let (fresh, pushed, same) = assign_flags-Fresh id [] candidates done h1 in
    let files = take_file_flags-Fresh id done.0 taken (filter is_secret done.1) h2 in
    let e : done.1 ≡ flags = ground arith in
    subst (λ fs. Fresh [] (option_names fs) × (map field_of fs ≡ map field_of candidates)) e
      (
        Fresh-append [] (flag_names done.1) _ fresh
            (subst (λ t. Fresh t (map file_flag (filter is_secret done.1))) pushed files),
        same,
      )
