-- ===== src/Actions/Process.antt =====
-- What the toolkit reads and changes of the process: its environment, standard output, exit code
-- and files, with the line end and the path delimiter of the operating system.
use forta_node_tr.Prelude.{
  ℕ, Text, Dict, Option, none, some, lookup, ◌++◌, [], insert, lookup-insert, text_eq,
  if◌then◌else◌, ◌≡◌, arith,
}
pub use forta_node_tr.Js.{Thrown, error, value}

pub record Process : Type 0 where
  pub env : Dict Text
  pub stdout : Text
  pub exit_code : Option ℕ
  pub files : Dict Text
  pub eol : Text
  pub path_delimiter : Text

-- `process.stdout.write(s)`
abbrev pub write : Text → Process → Process
write s p = record p { stdout = p.stdout ++ s }

-- `process.env[k] || ''`
unfoldable pub env_text : Text → Process → Text
env_text k p = elim (lookup k p.env) [ some t ↦ t | none ↦ [] ]

-- `process.env[k] = t`
abbrev pub set_env : Text → Text → Process → Process
set_env k t p = record p { env = insert k t p.env }

pub env_text-set_env :
    (k j t : Text) (p : Process)
    → env_text j (set_env k t p) ≡ (if text_eq k j then t else env_text j p)
unfolding env_text
env_text-set_env k j t p = ground (arith, lookup-insert k j t p.env)
