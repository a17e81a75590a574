-- ===== src/Timeline/Scopes.antt =====
-- `compute_stream_scopes` of src/analyzers/timeline/start_duration.cpp: the scope of each stream of
-- a file. The demuxer's streams are the list of their media types, and a rank is a natural number.
pub mod Apart
use mediadiff.Base.{List, Option, [], none, pos, some, suc, ℕ, ◌∷◌}
use mediadiff.Core.Model.{Scope, ScopeKind, audio, data_stream, global, program, subtitle, video}

pub data StreamMediaType : Type 0 where
  media_video media_audio media_subtitle media_data media_attachment media_other : StreamMediaType

abbrev pub scope_kind_for_stream : StreamMediaType → Option ScopeKind
scope_kind_for_stream media_video = some video
scope_kind_for_stream media_audio = some audio
scope_kind_for_stream media_subtitle = some subtitle
scope_kind_for_stream media_data = some data_stream
scope_kind_for_stream media_other = some data_stream
scope_kind_for_stream media_attachment = none

pub record Ranks : Type 0 where
  pub video_rank : ℕ
  pub audio_rank : ℕ
  pub subtitle_rank : ℕ
  pub data_rank : ℕ

-- The rank of the stream at an index; the last two kinds never come up.
abbrev pub rank_at : ScopeKind → ℕ → Ranks → ℕ
rank_at video i ranks = ranks.video_rank
rank_at audio i ranks = ranks.audio_rank
rank_at subtitle i ranks = ranks.subtitle_rank
rank_at data_stream i ranks = ranks.data_rank
rank_at global i ranks = i
rank_at program i ranks = i

abbrev pub raise_rank : ScopeKind → Ranks → Ranks
raise_rank video ranks = record ranks { video_rank = suc ranks.video_rank }
raise_rank audio ranks = record ranks { audio_rank = suc ranks.audio_rank }
raise_rank subtitle ranks = record ranks { subtitle_rank = suc ranks.subtitle_rank }
raise_rank data_stream ranks = record ranks { data_rank = suc ranks.data_rank }
raise_rank global ranks = ranks
raise_rank program ranks = ranks

abbrev pub scope_at : ScopeKind → ℕ → Ranks → Scope
scope_at kind i ranks = record { kind = kind; index = pos (rank_at kind i ranks) }

abbrev pub ranks_after : Option ScopeKind → Ranks → Ranks
ranks_after none ranks = ranks
ranks_after (some kind) ranks = raise_rank kind ranks

abbrev pub scope_of_stream : Option ScopeKind → ℕ → Ranks → Option Scope
scope_of_stream none i ranks = none
scope_of_stream (some kind) i ranks = some (scope_at kind i ranks)

-- The scopes of the streams from index `i` on.
unfoldable pub scopes_from : ℕ → Ranks → List StreamMediaType → List (Option Scope)
scopes_from i ranks [] = []
scopes_from i ranks (media_type ∷ streams) =
    let kind = scope_kind_for_stream media_type in
    scope_of_stream kind i ranks ∷ scopes_from (suc i) (ranks_after kind ranks) streams

abbrev pub no_ranks : Ranks
no_ranks = record { video_rank = 0; audio_rank = 0; subtitle_rank = 0; data_rank = 0 }

unfoldable pub compute_stream_scopes : List StreamMediaType → List (Option Scope)
unfolding scopes_from
compute_stream_scopes streams = scopes_from 0 no_ranks streams
