-- ===== src/Timeline/Scopes/Apart.antt =====
-- No two streams of a file share a scope.
use mediadiff.Base.{
  List, Option, [], arith, none, pos, refl, some, subst, suc, ℕ, ◌∷◌, ◌≡◌, ◌≢◌, ◌≤ℤ◌, ◌≤◌,
}
use mediadiff.Core.Model.{Scope, ScopeKind, audio, data_stream, subtitle, video}
use mediadiff.Timeline.Scopes.{
  Ranks, StreamMediaType, compute_stream_scopes, media_attachment, media_audio, media_data,
  media_other, media_subtitle, media_video, no_ranks, raise_rank, rank_at, ranks_after, scope_at,
  scope_kind_for_stream, scope_of_stream, scopes_from,
}
use mathlib.Core.List.{Memᴰ}
use mathlib.Core.List.Memᴰ.{head, tail}

-- The rank of a kind; nothing below it is given again.
abbrev pub rank_of : ScopeKind → Ranks → ℕ
rank_of kind ranks = rank_at kind 0 ranks

abbrev pub AtLeast : Ranks → Option Scope → Type 0
AtLeast ranks none = Unit
AtLeast ranks (some s) = pos (rank_of s.kind ranks) ≤ℤ s.index

-- A stream with a scope has one that no other stream has.
abbrev pub OneEach : List (Option Scope) → Type 0
OneEach [] = Unit
OneEach (none ∷ scopes) = OneEach scopes
OneEach (some s ∷ scopes) = ((o : Option Scope) → Memᴰ o scopes → o ≢ some s) × OneEach scopes

rank_of-raise_rank :
    (k m : ScopeKind) (ranks : Ranks) → rank_of m ranks ≤ rank_of m (raise_rank k ranks)
rank_of-raise_rank k m ranks = ground arith

AtLeast-raise_rank :
    (k : ScopeKind) (ranks : Ranks) (o : Option Scope)
    → AtLeast (raise_rank k ranks) o
    → AtLeast ranks o
AtLeast-raise_rank k ranks none h = tt
AtLeast-raise_rank k ranks (some s) h =
    let g = rank_of-raise_rank k s.kind ranks in omega (arith, g, h)

AtLeast-ranks_after :
    (kind : Option ScopeKind) (ranks : Ranks) (o : Option Scope)
    → AtLeast (ranks_after kind ranks) o
    → AtLeast ranks o
AtLeast-ranks_after none ranks o h = h
AtLeast-ranks_after (some k) ranks o h = AtLeast-raise_rank k ranks o h

scope_of_stream-AtLeast :
    (t : StreamMediaType) (i : ℕ) (ranks : Ranks)
    → AtLeast ranks (scope_of_stream (scope_kind_for_stream t) i ranks)
scope_of_stream-AtLeast media_video i ranks = omega arith
scope_of_stream-AtLeast media_audio i ranks = omega arith
scope_of_stream-AtLeast media_subtitle i ranks = omega arith
scope_of_stream-AtLeast media_data i ranks = omega arith
scope_of_stream-AtLeast media_other i ranks = omega arith
scope_of_stream-AtLeast media_attachment i ranks = tt

scopes_from-AtLeast :
    (i : ℕ) (ranks : Ranks) (streams : List StreamMediaType) (o : Option Scope)
    → Memᴰ o (scopes_from i ranks streams)
    → AtLeast ranks o
unfolding scopes_from
scopes_from-AtLeast i ranks [] o m = elim m [ ]
scopes_from-AtLeast i ranks (t ∷ streams) o m = elim m [
  | head e ↦ rw e (scope_of_stream-AtLeast t i ranks)
  | tail k ↦
      AtLeast-ranks_after (scope_kind_for_stream t) ranks o
        (scopes_from-AtLeast (suc i) (ranks_after (scope_kind_for_stream t) ranks) streams o k)
]

-- What is at least the raised ranks is not the scope that was given.
past_given :
    (k : ScopeKind) (i : ℕ) (ranks : Ranks) (o : Option Scope)
    → rank_of k (raise_rank k ranks) ≡ suc (rank_at k i ranks)
    → AtLeast (raise_rank k ranks) o
    → o ≢ some (scope_at k i ranks)
past_given k i ranks o g h f =
    let h' = subst (AtLeast (raise_rank k ranks)) f h in omega (arith, g, h')

OneEach-cons :
    (t : StreamMediaType) (i : ℕ) (ranks : Ranks) (scopes : List (Option Scope))
    → ((o : Option Scope) → Memᴰ o scopes → AtLeast (ranks_after (scope_kind_for_stream t) ranks) o)
    → OneEach scopes
    → OneEach (scope_of_stream (scope_kind_for_stream t) i ranks ∷ scopes)
OneEach-cons media_video i ranks scopes h s = ((λ o m. past_given video i ranks o refl (h o m)), s)
OneEach-cons media_audio i ranks scopes h s = ((λ o m. past_given audio i ranks o refl (h o m)), s)
OneEach-cons media_subtitle i ranks scopes h s =
    ((λ o m. past_given subtitle i ranks o refl (h o m)), s)
OneEach-cons media_data i ranks scopes h s =
    ((λ o m. past_given data_stream i ranks o refl (h o m)), s)
OneEach-cons media_other i ranks scopes h s =
    ((λ o m. past_given data_stream i ranks o refl (h o m)), s)
OneEach-cons media_attachment i ranks scopes h s = s

scopes_from-OneEach :
    (i : ℕ) (ranks : Ranks) (streams : List StreamMediaType) → OneEach (scopes_from i ranks streams)
unfolding scopes_from
scopes_from-OneEach i ranks [] = tt
scopes_from-OneEach i ranks (t ∷ streams) =
    let after = ranks_after (scope_kind_for_stream t) ranks in
    OneEach-cons t i ranks (scopes_from (suc i) after streams)
      (scopes_from-AtLeast (suc i) after streams) (scopes_from-OneEach (suc i) after streams)

-- No two streams of a file have one scope; a stream without a scope, an attachment, is left out.
pub compute_stream_scopes-OneEach :
    (streams : List StreamMediaType) → OneEach (compute_stream_scopes streams)
unfolding compute_stream_scopes
compute_stream_scopes-OneEach streams = scopes_from-OneEach 0 no_ranks streams
