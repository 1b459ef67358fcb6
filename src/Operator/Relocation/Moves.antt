-- ===== src/Operator/Relocation/Moves.antt =====
-- Which disks ReconfigureDisk of vsphere/workerpool/virtual_machine_operator.go moves.
use mathlib.Core.List.{Memᴰ}
use mathlib.Core.List.Memᴰ
use mathlib.Core.Option.{some-injective}
use vsphere_facade.Prelude.{
  >>=-eq-ok, Bool-cases, List, Option, Outcome, String, [], ap, bind, deref, eq_iff, false,
  get_elem?, if◌then◌else◌, inl, inr, none, not, ok, refl, some, string_eq, subst, suc, sym, true,
  zero, ℕ, ℤ, ◌++◌, ◌==◌, ◌∙◌, ◌∷◌, ◌≡◌, ◌≢◌, ◌⊎◌,
}
use vsphere_facade.Reconfig.Device.{VirtualDisk}
use vsphere_facade.Reconfig.Parameter.{AddDiskParameter}
use vsphere_facade.Operator.{OperatorError}
use vsphere_facade.Operator.Relocation.{
  AddDiskRequest, DiskMove, disk_at_unit, datastore_of, move_of, moves,
}

-- The new disk is found by its number: it is on the datastore asked for, or is moved there.
abbrev pub Placed : List (ℤ × VirtualDisk) → List DiskMove → String → AddDiskParameter → Type 0
Placed units ms wanted nd =
    (un : ℤ) × (d : VirtualDisk) × (nd.unit_number ≡ some un)
    × (disk_at_unit un units ≡ some d)
    × ((datastore_of d ≡ ok wanted)
        ⊎ Memᴰ (record { key = d.device.key; datastore_id = wanted }) ms)

Placed-more :
    (units : List (ℤ × VirtualDisk)) (before ms : List DiskMove) (wanted : String)
    (nd : AddDiskParameter)
    → Placed units ms wanted nd
    → Placed units (before ++ ms) wanted nd
Placed-more units before ms wanted nd (un, d, numbered, found, inl there) =
    (un, d, numbered, found, inl there)
Placed-more units before ms wanted nd (un, d, numbered, found, inr moved) =
    (un, d, numbered, found, inr (Memᴰ.append_right before moved))

some_of_deref :
    {A : Type 0} (o : Option A) {a : A} (r : Outcome OperatorError A)
    → r ≡ deref o
    → r ≡ ok a
    → o ≡ some a
some_of_deref none r e h = cc
some_of_deref (some a) r e h = cc

ok_eq : {A : Type 0} (r : Outcome OperatorError A) {a b : A} → r ≡ ok a → r ≡ ok b → b ≡ a
ok_eq r e h = cc

moved_or_there :
    (d : VirtualDisk) (wanted current : String) (m rest : List DiskMove)
    → datastore_of d ≡ ok current
    → (if not (wanted == current)
        then record { key = d.device.key; datastore_id = wanted } ∷ []
        else [])
      ≡ m
    → (datastore_of d ≡ ok wanted)
      ⊎ Memᴰ (record { key = d.device.key; datastore_id = wanted }) (m ++ rest)
moved_or_there d wanted current m rest known made = elim (Bool-cases (wanted == current)) [
  | inl same ↦ inl (known ∙ ap ok (sym ((eq_iff wanted current).0 same)))
  | inr other ↦
      let listed : record { key = d.device.key; datastore_id = wanted } ∷ [] ≡ m =
        rw other at made in
      inr (rw (← listed) (Memᴰ.head refl))
]

move_of-Placed :
    (units : List (ℤ × VirtualDisk)) (wanted : String) (nd : AddDiskParameter)
    (m rest : List DiskMove)
    → move_of units wanted nd ≡ ok m
    → Placed units (m ++ rest) wanted nd
unfolding move_of
move_of-Placed units wanted nd m rest made =
    let (un, numbered, made₁) = >>=-eq-ok (deref nd.unit_number) _ made in
    let (d, found, made₂) = >>=-eq-ok (deref (disk_at_unit un units)) _ made₁ in
    let (current, known, made₃) = >>=-eq-ok (datastore_of d) _ made₂ in
    (
      un,
      d,
      some_of_deref nd.unit_number _ refl numbered,
      some_of_deref (disk_at_unit un units) _ refl found,
      moved_or_there d wanted current m rest known (ok_eq _ made₃ refl),
    )

module _ (units : List (ℤ × VirtualDisk)) (b : AddDiskRequest) (requests : List AddDiskRequest)
    (nd : AddDiskParameter) (added : List AddDiskParameter) where
  moves-skip :
      (b.datastore_id == "") ≡ true
      → moves units (b ∷ requests) (nd ∷ added) ≡ moves units requests added
  unfolding moves
  moves-skip h = rw h

  moves-take :
      (b.datastore_id == "") ≡ false
      → moves units (b ∷ requests) (nd ∷ added)
        ≡ bind
            (move_of units b.datastore_id nd)
            λ m. bind (moves units requests added) λ ms. ok (m ++ ms)
  unfolding moves
  moves-take h = rw h

-- Every new disk that asks for a datastore is on it, or is moved there, where the moves are worked
-- out: no disk is left behind.
pub moves-Placed :
    (units : List (ℤ × VirtualDisk)) (requests : List AddDiskRequest)
    (added : List AddDiskParameter) (ms : List DiskMove)
    → moves units requests added ≡ ok ms
    → (i : ℕ) (a : AddDiskRequest) (nd : AddDiskParameter) → get_elem? requests i ≡ some a
    → get_elem? added i ≡ some nd
    → a.datastore_id ≢ ""
    → Placed units ms a.datastore_id nd
moves-Placed units [] added ms made i a nd at_request at_added named = cc
moves-Placed units (b ∷ requests) [] ms made i a nd at_request at_added named = unfold moves in cc
moves-Placed units (b ∷ requests) (nd' ∷ added) ms made zero a nd at_request at_added named =
    let same : b.datastore_id ≡ a.datastore_id =
      ap (λ (r : AddDiskRequest). r.datastore_id) (some-injective _ _ at_request) in
    elim (Bool-cases (b.datastore_id == "")) [
      | inl unnamed ↦ absurd (named (sym same ∙ (eq_iff b.datastore_id "").0 unnamed))
      | inr other ↦
          let (m, moved, made₁) =
            >>=-eq-ok (move_of units b.datastore_id nd') _
              (sym (moves-take units b requests nd' added other) ∙ made) in
          let (rest, later, made₂) = >>=-eq-ok (moves units requests added) _ made₁ in
          let first : Placed units (m ++ rest) b.datastore_id nd' =
            move_of-Placed units b.datastore_id nd' m rest moved in
          let whole : m ++ rest ≡ ms = ok_eq _ made₂ refl in
          subst (λ l. Placed units l a.datastore_id nd) whole
            (subst (λ n. Placed units (m ++ rest) a.datastore_id n) (some-injective _ _ at_added)
              (subst (λ w. Placed units (m ++ rest) w nd') same first))
    ]
moves-Placed units (b ∷ requests) (nd' ∷ added) ms made (suc j) a nd at_request at_added named =
    elim (Bool-cases (b.datastore_id == "")) [
      | inl unnamed ↦
          moves-Placed units requests added ms
            (sym (moves-skip units b requests nd' added unnamed) ∙ made) j a nd at_request at_added
            named
      | inr other ↦
          let (m, moved, made₁) =
            >>=-eq-ok (move_of units b.datastore_id nd') _
              (sym (moves-take units b requests nd' added other) ∙ made) in
          let (rest, later, made₂) = >>=-eq-ok (moves units requests added) _ made₁ in
          let whole : m ++ rest ≡ ms = ok_eq _ made₂ refl in
          subst (λ l. Placed units l a.datastore_id nd) whole
            (Placed-more units m rest a.datastore_id nd
              (moves-Placed units requests added rest later j a nd at_request at_added named))
    ]
