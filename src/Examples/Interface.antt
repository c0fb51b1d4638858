-- ===== src/Examples/Interface.antt =====
-- The theorems on the state of the interface at concrete states.
use nu_agent.Prelude.{List, ℕ, ◌≡◌, refl, true, false, [], ◌∷◌, none, some, String, arith}
use nu_agent.Tui.PromptQueue.{
  PromptStatus, queued, in_progress, QueuedPrompt, PromptQueue, no_facts,
}
use nu_agent.Tui.PromptQueue.Status.{with_status, IsDistinct}
use nu_agent.Tui.PromptQueue.Invariant.{IsWellFormed}
use nu_agent.Tui.PromptQueue.Preserved.{cancel, queue_step, queue_step-IsWellFormed}
use nu_agent.Tui.InputHistory.{idle, loaded, history_down}
use nu_agent.Tui.InputHistory.Walk.{ups, downs, history_down-ups}
use nu_agent.Tui.Scroll.{ScrollState, wheel_down, default_scroll, reduce_scroll_action}
use nu_agent.Tui.Scroll.Cursor.{IsInside, reduce_scroll_action-IsInside}

abbrev prompt : ℕ → String → PromptStatus → QueuedPrompt
prompt id said st = record { id = id; prompt_text = said; status = st; facts = no_facts }

abbrev waiting : PromptQueue
waiting = record {
  prompt_items = prompt 1 "first" queued ∷ prompt 2 "second" queued ∷ [];
  pending_prompt_ids = 1 ∷ 2 ∷ [];
  active_prompt_id = none;
  next_prompt_id = 3;
}

waiting-IsWellFormed : IsWellFormed waiting
unfolding IsDistinct with_status
waiting-IsWellFormed = record {
  distinct = ((refl, tt), (tt, tt));
  below = (omega arith, (omega arith, tt));
  pending = refl;
  active = refl;
}

abbrev busy : PromptQueue
busy = record {
  prompt_items = prompt 1 "first" in_progress ∷ prompt 2 "second" queued ∷ [];
  pending_prompt_ids = 2 ∷ [];
  active_prompt_id = some 1;
  next_prompt_id = 3;
}

busy-IsWellFormed : IsWellFormed busy
unfolding IsDistinct with_status
busy-IsWellFormed = record {
  distinct = ((refl, tt), (tt, tt));
  below = (omega arith, (omega arith, tt));
  pending = refl;
  active = refl;
}

queue_step-IsWellFormed_example : IsWellFormed (queue_step busy cancel)
queue_step-IsWellFormed_example =
    queue_step-IsWellFormed busy cancel (omega arith) busy-IsWellFormed

abbrev scrolled : ScrollState
scrolled = record default_scroll {
  following_tail = false;
  cursor_visual_row = 7;
  viewport_height = 5;
  max_scroll = 5;
  total_visual_rows = 10;
  selection = some (record { anchor = 4; cursor = 7 });
}

reduce_scroll_action-IsInside_example : IsInside (reduce_scroll_action scrolled (wheel_down true)).0
reduce_scroll_action-IsInside_example =
    reduce_scroll_action-IsInside scrolled (wheel_down true)
      (omega arith, (omega arith, omega arith))

abbrev same_text : String → String
same_text text = text

abbrev submitted : List String
submitted = "one" ∷ "two" ∷ "three" ∷ []

history_down-ups_example :
    history_down
      (downs same_text submitted 1 (ups same_text submitted 2 (idle, "draft"))).0
      submitted
    ≡ (idle, loaded "draft")
history_down-ups_example = history_down-ups same_text submitted "draft" 1 (omega arith)
