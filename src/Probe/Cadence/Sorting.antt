-- ===== src/Probe/Cadence/Sorting.antt =====
-- The sorted timestamps of src/probe/cadence.cpp do not depend on the order of the packets.
use mediadiff.Base.{
  Bool-cases, List, [], ap, ap₂, arith, eq_of_parts, eqb_ℤ, false, if◌then◌else◌, inl, inr, length,
  ltb_ℤ, refl, suc, sym, true, ℤ, ◌∙◌, ◌∷◌, ◌≡◌,
}
use mediadiff.Core.CheckedArith.{int64_min}
use mediadiff.Probe.Cadence.{CadenceAxis, timestamp_on}
use mediadiff.Probe.Cadence.Timestamps.{insert_timestamp, sort_timestamps, usable_timestamps}
use mediadiff.Timeline.{PacketRecord}
use mathlib.Core.List.{Permᴰ}
use mathlib.Core.List.Permᴰ.{nil, cons, swap, trans}

insert_after :
    (t o : ℤ) (times : List ℤ)
    → ltb_ℤ o t ≡ true
    → insert_timestamp t (o ∷ times) ≡ o ∷ insert_timestamp t times
unfolding insert_timestamp
insert_after t o times e = rw e refl

insert_before :
    (t o : ℤ) (times : List ℤ) → ltb_ℤ o t ≡ false → insert_timestamp t (o ∷ times) ≡ t ∷ o ∷ times
unfolding insert_timestamp
insert_before t o times e = rw e refl

-- Two timestamps in front.
insert_front :
    (a b o : ℤ) (times : List ℤ)
    → ltb_ℤ o a ≡ false
    → ltb_ℤ o b ≡ false
    → insert_timestamp a (b ∷ o ∷ times) ≡ insert_timestamp b (a ∷ o ∷ times)
insert_front a b o times ea eb = elim (Bool-cases (ltb_ℤ b a)) [
  | inl l ↦
      insert_after a b (o ∷ times) l
      ∙ ap (λ rest. b ∷ rest) (insert_before a o times ea)
      ∙ sym (insert_before b a (o ∷ times) (ground (arith, l)))
  | inr l ↦ elim (Bool-cases (ltb_ℤ a b)) [
    | inl g ↦
        insert_before a b (o ∷ times) l
        ∙ sym (ap (λ rest. a ∷ rest) (insert_before b o times eb))
        ∙ sym (insert_after b a (o ∷ times) g)
    | inr g ↦
        ap₂ (λ x y. insert_timestamp x (y ∷ o ∷ times)) (eq_of_parts a b (ground (arith, l, g)))
          (eq_of_parts b a (ground (arith, l, g)))
  ]
]

insert_past :
    (a b o : ℤ) (times : List ℤ)
    → ltb_ℤ o a ≡ false
    → ltb_ℤ o b ≡ true
    → insert_timestamp a (o ∷ insert_timestamp b times) ≡ insert_timestamp b (a ∷ o ∷ times)
insert_past a b o times ea eb =
    insert_before a o (insert_timestamp b times) ea
    ∙ sym (ap (λ rest. a ∷ rest) (insert_after b o times eb))
    ∙ sym (insert_after b a (o ∷ times) (ground (arith, ea, eb)))

insert_singletons :
    (a b : ℤ)
    → insert_timestamp a (insert_timestamp b []) ≡ insert_timestamp b (insert_timestamp a [])
unfolding insert_timestamp
insert_singletons a b = ground arith

-- Two timestamps inserted in either order.
insert_timestamp_comm :
    (a b : ℤ) (times : List ℤ)
    → insert_timestamp a (insert_timestamp b times) ≡ insert_timestamp b (insert_timestamp a times)
insert_timestamp_comm a b [] = insert_singletons a b
insert_timestamp_comm a b (o ∷ times) = elim (Bool-cases (ltb_ℤ o a)) [
  | inl ea ↦ elim (Bool-cases (ltb_ℤ o b)) [
    | inl eb ↦
        rw
          (
            insert_after b o times eb,
            insert_after a o times ea,
            insert_after a o (insert_timestamp b times) ea,
            insert_after b o (insert_timestamp a times) eb,
            insert_timestamp_comm a b times,
          )
          refl
    | inr eb ↦
        rw (insert_before b o times eb, insert_after a o times ea)
          (sym (insert_past b a o times eb ea))
  ]
  | inr ea ↦ elim (Bool-cases (ltb_ℤ o b)) [
    | inl eb ↦
        rw (insert_after b o times eb, insert_before a o times ea) (insert_past a b o times ea eb)
    | inr eb ↦
        rw (insert_before b o times eb, insert_before a o times ea) (insert_front a b o times ea eb)
  ]
]

-- A timestamp that a packet has, in front of the others.
abbrev usable_then : CadenceAxis → PacketRecord → List ℤ → List ℤ
usable_then axis p times =
    if eqb_ℤ (timestamp_on axis p) int64_min
    then times
    else insert_timestamp (timestamp_on axis p) times

sorted_cons :
    (axis : CadenceAxis) (p : PacketRecord) (packets : List PacketRecord)
    → sort_timestamps (usable_timestamps axis (p ∷ packets))
      ≡ usable_then axis p (sort_timestamps (usable_timestamps axis packets))
unfolding usable_timestamps sort_timestamps
sorted_cons axis p packets = elim (Bool-cases (eqb_ℤ (timestamp_on axis p) int64_min)) [
  | inl e ↦ rw e refl
  | inr e ↦ rw e refl
]

usable_then_comm :
    (axis : CadenceAxis) (p q : PacketRecord) (times : List ℤ)
    → usable_then axis p (usable_then axis q times) ≡ usable_then axis q (usable_then axis p times)
usable_then_comm axis p q times = elim (Bool-cases (eqb_ℤ (timestamp_on axis p) int64_min)) [
  | inl e ↦ rw e refl
  | inr e ↦ elim (Bool-cases (eqb_ℤ (timestamp_on axis q) int64_min)) [
    | inl f ↦ rw (e, f) refl
    | inr f ↦ rw (e, f) (insert_timestamp_comm (timestamp_on axis p) (timestamp_on axis q) times)
  ]
]

pub sorted-Perm :
    {ps qs : List PacketRecord} (axis : CadenceAxis)
    → Permᴰ ps qs
    → sort_timestamps (usable_timestamps axis ps) ≡ sort_timestamps (usable_timestamps axis qs)
sorted-Perm axis nil = refl
sorted-Perm axis (cons {a = a} {b = b} {l₁ = ps} {l₂ = qs} e m) =
    rw (sorted_cons axis a ps, sorted_cons axis b qs, sorted-Perm axis m, e) refl
sorted-Perm axis (swap {a' = c} {b' = d} {l = l} e f) =
    rw
      (
        e,
        f,
        sorted_cons axis d (c ∷ l),
        sorted_cons axis c (d ∷ l),
        sorted_cons axis c l,
        sorted_cons axis d l,
      )
      (usable_then_comm axis d c (sort_timestamps (usable_timestamps axis l)))
sorted-Perm axis (trans m n) = sorted-Perm axis m ∙ sorted-Perm axis n

length-insert_timestamp :
    (t : ℤ) (times : List ℤ) → length (insert_timestamp t times) ≡ suc (length times)
unfolding insert_timestamp
length-insert_timestamp t [] = refl
length-insert_timestamp t (o ∷ times) = elim (Bool-cases (ltb_ℤ o t)) [
  | inl e ↦ rw e (ap suc (length-insert_timestamp t times))
  | inr e ↦ rw e refl
]

pub length-sort_timestamps : (times : List ℤ) → length (sort_timestamps times) ≡ length times
unfolding sort_timestamps
length-sort_timestamps [] = refl
length-sort_timestamps (t ∷ times) =
    length-insert_timestamp t (sort_timestamps times) ∙ ap suc (length-sort_timestamps times)
