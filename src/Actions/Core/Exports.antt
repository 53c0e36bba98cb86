-- ===== src/Actions/Core/Exports.antt =====
-- exportVariable of the toolkit's core.js, with issueCommand of its file-command.js
-- (.github/actions/propose/dist/index.js): what reaches the environment and the `GITHUB_ENV` file.
use forta_node_tr.Prelude.{
  Text, Dict, [], ◌++◌, append_assoc, some, codes, is_empty, lookup, insert, lookup-insert,
  lookup-insert_self, is_empty_iff, is_empty-eq-false, Bool-cases, inl, inr, text_eq_iff, ok, ◌>>◌,
  >>=-ok, ◌≡◌, ◌≢◌, refl, arith,
}
use forta_node_tr.Js.{Value, str}
use forta_node_tr.Actions.Process.{Process, env_text, set_env, env_text-set_env}
use forta_node_tr.Actions.Command.{to_command_value, issue_file_command, issue_command}
use forta_node_tr.Actions.Core.{export_variable, delimiter}

-- What one exported variable adds to the file.
entry : Text → Text → Text → Text
entry eol name t = (name ++ codes "<<" ++ delimiter ++ eol ++ t ++ eol ++ delimiter) ++ eol

issue_file_command-env :
    (command : Text) (message : Value) (p : Process)
    → (issue_file_command command message p).1.env ≡ p.env
unfolding issue_file_command
issue_file_command-env command message p = ground arith

issue_command-env :
    (command : Text) (props : Dict Value) (message : Value) (p : Process)
    → (issue_command command props message p).env ≡ p.env
unfolding issue_command
issue_command-env command props message p = refl

-- The variable is set for this process on every path, also where the file is missing and the
-- call throws.
pub export_variable-env :
    (name : Text) (val : Value) (p : Process)
    → lookup name (export_variable name val p).1.env ≡ some (to_command_value val)
unfolding export_variable
export_variable-env name val p =
    elim (Bool-cases
      (is_empty (env_text (codes "GITHUB_ENV") (set_env name (to_command_value val) p)))) [
        | inl none_named ↦
            rw none_named
              (rw issue_command-env (lookup-insert_self name (to_command_value val) p.env))
        | inr named ↦
            rw named
              (rw issue_file_command-env (lookup-insert_self name (to_command_value val) p.env))
      ]

issue_file_command-eq :
    (command path text t : Text) (p : Process)
    → env_text (codes "GITHUB_" ++ command) p ≡ path
    → path ≢ []
    → lookup path p.files ≡ some text
    → issue_file_command command (str t) p
      ≡ (ok tt, record p { files = insert path (text ++ t ++ p.eol) p.files })
unfolding issue_file_command to_command_value
issue_file_command-eq command path text t p named full there = ground (arith, is_empty_iff path)

-- Where `GITHUB_ENV` names a file, a call sets the variable and appends one entry to the file.
export_variable-file :
    (name path text : Text) (val : Value) (p : Process)
    → name ≢ codes "GITHUB_ENV"
    → env_text (codes "GITHUB_ENV") p ≡ path
    → path ≢ []
    → lookup path p.files ≡ some text
    → export_variable name val p ≡ (
      ok tt,
      record p {
        env = insert name (to_command_value val) p.env;
        files = insert path (text ++ entry p.eol name (to_command_value val)) p.files;
      },
    )
unfolding export_variable entry
export_variable-file name path text val p other named full there =
    let q = set_env name (to_command_value val) p in
    let still : env_text (codes "GITHUB_ENV") q ≡ path = ground (
      arith,
      env_text-set_env name (codes "GITHUB_ENV") (to_command_value val) p,
      text_eq_iff name (codes "GITHUB_ENV"),
    ) in
    rw (still, is_empty-eq-false path full)
      (rw
        (issue_file_command-eq (codes "ENV") path text
          (name ++ codes "<<" ++ delimiter ++ p.eol ++ to_command_value val ++ p.eol ++ delimiter) q
          still full there)
        (simp append_assoc))

-- A value that carries the delimiter on a line of its own and then a second variable.
abbrev pub smuggle : Text → Text → Text → Text → Text
smuggle eol v name₂ v₂ =
    v ++ eol ++ delimiter ++ eol ++ name₂ ++ codes "<<" ++ delimiter ++ eol ++ v₂

entry-smuggle :
    (eol name v name₂ v₂ : Text)
    → entry eol name (smuggle eol v name₂ v₂) ≡ entry eol name v ++ entry eol name₂ v₂
unfolding entry
entry-smuggle eol name v name₂ v₂ = simp append_assoc

module _ (name name₂ path text v v₂ : Text) (p : Process) (other : name ≢ codes "GITHUB_ENV")
    (other₂ : name₂ ≢ codes "GITHUB_ENV") (named : env_text (codes "GITHUB_ENV") p ≡ path)
    (full : path ≢ []) (there : lookup path p.files ≡ some text) where
  after_first : Process
  after_first = record p {
    env = insert name v p.env;
    files = insert path (text ++ entry p.eol name v) p.files;
  }

  still_named : env_text (codes "GITHUB_ENV") after_first ≡ path
  unfolding after_first env_text
  still_named = ground (
    arith,
    lookup-insert name (codes "GITHUB_ENV") v p.env,
    text_eq_iff name (codes "GITHUB_ENV"),
  )

  first_call : export_variable name (str v) p ≡ (ok tt, after_first)
  unfolding after_first to_command_value
  first_call = export_variable-file name path text (str v) p other named full there

  second_call :
      lookup path (export_variable name₂ (str v₂) after_first).1.files
      ≡ some ((text ++ entry p.eol name v) ++ entry p.eol name₂ v₂)
  unfolding after_first to_command_value
  second_call =
      rw
        (export_variable-file name₂ path (text ++ entry p.eol name v) (str v₂) after_first other₂
          still_named full (lookup-insert_self path (text ++ entry p.eol name v) p.files))
        (lookup-insert_self path _ _)

  -- The delimiter is fixed and the value is not checked for it: where `GITHUB_ENV` names a file,
  -- exporting such a value leaves the file as exporting both variables does.
  pub export_variable-smuggle :
      lookup path (export_variable name (str (smuggle p.eol v name₂ v₂)) p).1.files
      ≡ lookup path ((export_variable name (str v) >> export_variable name₂ (str v₂)) p).1.files
  unfolding to_command_value
  export_variable-smuggle =
      rw
        (export_variable-file name path text (str (smuggle p.eol v name₂ v₂)) p other named full
          there)
        (rw
          (
            >>=-ok (export_variable name (str v)) (λ _. export_variable name₂ (str v₂)) p
                after_first tt first_call,
            second_call,
            lookup-insert_self path (text ++ entry p.eol name (smuggle p.eol v name₂ v₂)) p.files,
            entry-smuggle p.eol name v name₂ v₂,
          )
          (simp append_assoc))
