-- ===== src/Timeline/Durations/First.antt =====
-- The first presentation is the smallest PTS.
use mediadiff.Base.{
  Bool, Bool-cases, List, Option, [], ap, arith, eqb_ℤ, eqb_ℤ_iff, false, if◌then◌else◌, inl, inr,
  ltb_ℤ, none, refl, some, sym, true, ℤ, ◌∙◌, ◌∷◌, ◌≡◌, ◌≢◌, ◌≤ℤ◌, ◌⊎◌,
}
use mediadiff.Core.CheckedArith.{int64_min}
use mediadiff.Timeline.{PacketRecord}
use mediadiff.Timeline.Durations.{first_of, first_presented_from, first_presented_pts}
use mathlib.Core.List.{Memᴰ}
use mathlib.Core.List.Memᴰ.{head, tail}
use mathlib.Core.Bool.{false≢true}

abbrev pub AllMissing : List PacketRecord → Type 0
AllMissing packets = (p : PacketRecord) → Memᴰ p packets → p.pts ≡ int64_min

-- A PTS of the packets that is not missing.
abbrev pub Presented : List PacketRecord → ℤ → Type 0
Presented packets t = (p : PacketRecord) × Memᴰ p packets × (p.pts ≡ t) × (t ≢ int64_min)

abbrev pub BelowAll : List PacketRecord → ℤ → Type 0
BelowAll packets t = (p : PacketRecord) → Memᴰ p packets → p.pts ≢ int64_min → t ≤ℤ p.pts

-- The least PTS that is not missing, or nothing where all are.
abbrev pub IsLeastOf : List PacketRecord → Option ℤ → Type 0
IsLeastOf packets none = AllMissing packets
IsLeastOf packets (some t) = Presented packets t × BelowAll packets t

-- The same with a best value from before.
abbrev IsLeastFrom : Option ℤ → List PacketRecord → Option ℤ → Type 0
IsLeastFrom none packets r = IsLeastOf packets r
IsLeastFrom (some b) packets none = ⊥
IsLeastFrom (some b) packets (some t) =
    ((b ≡ t) ⊎ Presented packets t) × (t ≤ℤ b) × BelowAll packets t

Presented-cons :
    (p : PacketRecord) (packets : List PacketRecord) (t : ℤ)
    → Presented packets t
    → Presented (p ∷ packets) t
Presented-cons p packets t (q, m, e, n) = (q, tail m, e, n)

BelowAll-missing :
    (p : PacketRecord) (packets : List PacketRecord) (t : ℤ)
    → p.pts ≡ int64_min
    → BelowAll packets t
    → BelowAll (p ∷ packets) t
BelowAll-missing p packets t e h q (head f) n = absurd (n (ap (λ x. x.pts) f ∙ e))
BelowAll-missing p packets t e h q (tail m) n = h q m n

BelowAll-cons :
    (p : PacketRecord) (packets : List PacketRecord) (t : ℤ)
    → t ≤ℤ p.pts
    → BelowAll packets t
    → BelowAll (p ∷ packets) t
BelowAll-cons p packets t l h q (head f) n = rw f l
BelowAll-cons p packets t l h q (tail m) n = h q m n

AllMissing-cons :
    (p : PacketRecord) (packets : List PacketRecord)
    → p.pts ≡ int64_min
    → AllMissing packets
    → AllMissing (p ∷ packets)
AllMissing-cons p packets e h q (head f) = ap (λ x. x.pts) f ∙ e
AllMissing-cons p packets e h q (tail m) = h q m

-- A packet without a PTS changes nothing.
least_past_missing :
    (best : Option ℤ) (p : PacketRecord) (packets : List PacketRecord) (r : Option ℤ)
    → p.pts ≡ int64_min
    → IsLeastFrom best packets r
    → IsLeastFrom best (p ∷ packets) r
least_past_missing none p packets none e h = AllMissing-cons p packets e h
least_past_missing none p packets (some t) e (f, b) =
    (Presented-cons p packets t f, BelowAll-missing p packets t e b)
least_past_missing (some b) p packets none e h = h
least_past_missing (some b) p packets (some t) e (inl f, l, a) =
    (inl f, l, BelowAll-missing p packets t e a)
least_past_missing (some b) p packets (some t) e (inr f, l, a) =
    (inr (Presented-cons p packets t f), l, BelowAll-missing p packets t e a)

-- What a packet's own PTS as the best value says of the packets with it.
Presented-here :
    (p : PacketRecord) (packets : List PacketRecord) (t : ℤ)
    → p.pts ≢ int64_min
    → (p.pts ≡ t) ⊎ Presented packets t
    → Presented (p ∷ packets) t
Presented-here p packets t n (inl e) = (p, head refl, e, λ f. n (e ∙ f))
Presented-here p packets t n (inr f) = Presented-cons p packets t f

least_past_present :
    (best : Option ℤ) (p : PacketRecord) (packets : List PacketRecord) (r : Option ℤ)
    → p.pts ≢ int64_min
    → IsLeastFrom (first_of best p.pts) packets r
    → IsLeastFrom best (p ∷ packets) r
least_past_present none p packets none n h = absurd h
least_past_present none p packets (some t) n (f, l, a) =
    (Presented-here p packets t n f, BelowAll-cons p packets t l a)
least_past_present (some b) p packets r n h = chosen (ltb_ℤ p.pts b) refl r h
  where
    chosen :
        (s : Bool)
        → ltb_ℤ p.pts b ≡ s
        → (r : Option ℤ) → IsLeastFrom (if s then some p.pts else some b) packets r
        → IsLeastFrom (some b) (p ∷ packets) r
    chosen true e none k = absurd k
    chosen true e (some t) (f, l, a) =
        (inr (Presented-here p packets t n f), ground (arith, e, l), BelowAll-cons p packets t l a)
    chosen false e none k = absurd k
    chosen false e (some t) (inl f, l, a) =
        (inl f, l, BelowAll-cons p packets t (ground (arith, e, l)) a)
    chosen false e (some t) (inr f, l, a) =
        (inr (Presented-cons p packets t f), l, BelowAll-cons p packets t (ground (arith, e, l)) a)

first_presented_from-IsLeastFrom :
    (best : Option ℤ) (packets : List PacketRecord)
    → IsLeastFrom best packets (first_presented_from best packets)
unfolding first_presented_from
first_presented_from-IsLeastFrom none [] = λ p m. elim m [ ]
first_presented_from-IsLeastFrom (some b) [] = (inl refl, omega arith, λ p m. elim m [ ])
first_presented_from-IsLeastFrom best (p ∷ packets) = elim (Bool-cases (eqb_ℤ p.pts int64_min)) [
  | inl e ↦ rw e (
      least_past_missing best p packets (first_presented_from best packets)
        ((eqb_ℤ_iff p.pts int64_min).0 e) (first_presented_from-IsLeastFrom best packets))
  | inr e ↦ rw e (
      least_past_present best p packets (first_presented_from (first_of best p.pts) packets)
        (λ f. false≢true (sym e ∙ (eqb_ℤ_iff p.pts int64_min).1 f))
        (first_presented_from-IsLeastFrom (first_of best p.pts) packets))
]

-- The result is the least PTS of the packets that is not missing, and nothing where all are
-- missing.
pub first_presented_pts-IsLeastOf :
    (packets : List PacketRecord) → IsLeastOf packets (first_presented_pts packets)
unfolding first_presented_pts
first_presented_pts-IsLeastOf packets = first_presented_from-IsLeastFrom none packets
