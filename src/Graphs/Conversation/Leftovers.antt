-- ===== src/Graphs/Conversation/Leftovers.antt =====
-- graphs/conversation.py: the keys of the state that the first node reads.
use editorial_team_v.Prelude.{◌≡◌, arith}
use editorial_team_v.Graphs.State.{GraphState}
use editorial_team_v.Graphs.Turn.{Effects, Services}
use editorial_team_v.Graphs.Prepare.{validate_and_prepare_turn}
use editorial_team_v.Graphs.Conversation.{run_turn_within, run_turn}

-- The same version, identifier, text and stored conversation.
abbrev pub SameInput : GraphState → GraphState → Type 0
SameInput s t =
    (s.state_version ≡ t.state_version)
    × (s.conversation_id ≡ t.conversation_id)
    × (s.input_text ≡ t.input_text)
    × (s.conversation ≡ t.conversation)

-- The rest of the state, as a failed turn may have left it, does not matter.
prepare-SameInput :
    (services : Services) (s t : GraphState) (fx : Effects)
    → SameInput s t
    → validate_and_prepare_turn services s fx ≡ validate_and_prepare_turn services t fx
unfolding validate_and_prepare_turn
prepare-SameInput services s t fx h = ground arith

-- Two states with the same version, conversation identifier, input text and stored conversation
-- have the same turn, with the same effects, whatever the other keys hold, as a failed turn may
-- have left them.
pub run_turn-SameInput :
    (services : Services) (s t : GraphState) (fx : Effects)
    → SameInput s t
    → run_turn services s fx ≡ run_turn services t fx
unfolding run_turn run_turn_within
run_turn-SameInput services s t fx h = rw (prepare-SameInput services s t fx h)
