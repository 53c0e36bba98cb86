-- ===== src/Actions/Summary/Tests.antt =====
-- A job summary that is written in two parts.
use forta_node_tr.Prelude.{
  Text, List, [], ◌∷◌, ◌++◌, Bool, true, false, none, codes, ◌≡◌, refl, lookup, text_eq,
}
use forta_node_tr.Actions.Process.{Process, env_text}
use forta_node_tr.Actions.Summary.{
  Job, Element, heading_element, list_element, add_all, found_path, write_summary,
}
use forta_node_tr.Actions.Summary.Writing.{write_summary-twice}

abbrev process : Process
process = record {
  env = (codes "GITHUB_STEP_SUMMARY", codes "/s") ∷ [];
  stdout = [];
  exit_code = none;
  files = (codes "/s", codes "old") ∷ [];
  eol = 10 ∷ [];
  path_delimiter = codes ":";
}

abbrev job : Job
job = record { buffer = []; file_path = none; process = process }

abbrev access : Text → Process → Bool
access path p = true

abbrev first : List Element
first = heading_element (codes "Release") (codes "2") ∷ []

abbrev second : List Element
second = list_element (codes "a" ∷ codes "b" ∷ []) false ∷ []

write_summary-twice_example :
    write_summary access false (add_all second (write_summary access false (add_all first job)).1)
    ≡ write_summary access false (add_all (first ++ second) job)
unfolding found_path env_text lookup text_eq
write_summary-twice_example = write_summary-twice access first second job (codes "/s") refl
