-- ===== src/Examples/Picked.antt =====
-- The theorems on the pickers at a container with one agent.
use nu_agent.Prelude.{◌≡◌, ◌↔◌, refl, true, List, [], ◌∷◌, none, codes, arith, inl, inr}
use nu_agent.Tui.Picker.{
  PickerOption, PickerPayload, matches_query, to_ascii_lowercase, selected, filtered, fuzzy_matches,
  fuzzy_loop,
}
use nu_agent.Tui.Picker.Matching.{FoundIn, matches_query_iff}
use nu_agent.Tui.Picker.Container.{ActivePicker, PickerEntry, new_container, switch, SwitchRequest}
use nu_agent.Tui.Picker.Entries.{count_open}
use nu_agent.Tui.Picker.Keys.{char, down, handle_key, resolve_option, query_picker, entry_key}
use nu_agent.Tui.Picker.Invariant.{
  PickerStep, press, show, load, suggest, picker_run, IsWellFormed, picker_run-IsWellFormed,
}
use nu_agent.Tui.Picker.Submit.{Submits, handle_key-Submits}

abbrev coder : PickerOption
coder = record {
  id = codes "coder";
  display = codes "Coder";
  search_text = codes "coder writes code";
  section = none;
  payload = PickerPayload.agent (codes "coder") none;
}

matches_query_iff_example :
    (matches_query (codes "CDR") coder ≡ true) ↔ FoundIn (to_ascii_lowercase (codes "CDR")) coder
matches_query_iff_example = matches_query_iff (codes "CDR") coder

new_container-IsWellFormed : IsWellFormed new_container
unfolding count_open
new_container-IsWellFormed = record {
  six = refl;
  single = omega arith;
  placed = (
    inr (inl refl),
    (inr (inl refl), (inr (inl refl), (inr (inl refl), (inr (inl refl), (inl refl, tt))))),
  );
}

abbrev some_keys : List PickerStep
some_keys =
    load ActivePicker.agent (coder ∷ [])
    ∷ show ActivePicker.agent
    ∷ press (char 99)
    ∷ press down
    ∷ suggest (coder ∷ [])
    ∷ show ActivePicker.model
    ∷ []

picker_run-IsWellFormed_example : IsWellFormed (picker_run new_container some_keys)
picker_run-IsWellFormed_example =
    picker_run-IsWellFormed new_container some_keys new_container-IsWellFormed

abbrev agent_entry : PickerEntry
agent_entry = record {
  kind = ActivePicker.agent;
  state = record { is_open = true; query = codes "cd"; selection = 0; options = coder ∷ [] };
  edit_query = true;
  submit = switch (SwitchRequest.agent []);
}

handle_key-Submits_example : Submits agent_entry (switch (SwitchRequest.agent (codes "coder")))
unfolding handle_key query_picker entry_key selected filtered matches_query fuzzy_matches fuzzy_loop
    to_ascii_lowercase resolve_option
handle_key-Submits_example =
    handle_key-Submits (agent_entry ∷ []) agent_entry (switch (SwitchRequest.agent (codes "coder")))
      refl (λ e. cc e) refl
