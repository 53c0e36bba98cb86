-- ===== src/Actions/Summary.antt =====
-- The job summary of the toolkit, the class Summary (.github/actions/propose/dist/index.js): a
-- buffer of HTML that is written to the file that the environment names. Whether that file may be
-- read and written is a parameter; its encoding is not modelled.
pub mod Writing
mod Tests
use forta_node_tr.Prelude.{
  ℕ, Text, Dict, List, [], ◌∷◌, ◌++◌, Bool, true, false, Option, none, some, codes, is_empty,
  text_eq, ◌||◌, if◌then◌else◌, lookup, insert, Result, ok, err, Effect,
}
use forta_node_tr.Js.{Thrown, error, print_nat}
use forta_node_tr.Actions.Process.{Process, env_text}

-- The summary and the process that it is part of.
pub record Job : Type 0 where
  pub buffer : Text
  pub file_path : Option Text
  pub process : Process

html_attrs : Dict Text → Text
html_attrs [] = []
html_attrs ((key, value) ∷ attrs) =
    codes " " ++ key ++ codes "=\"" ++ value ++ codes "\"" ++ html_attrs attrs

-- Without content, and with an empty one, the tag is not closed.
pub wrap : Text → Text → Dict Text → Text
wrap tag content attrs =
    if is_empty content
    then codes "<" ++ tag ++ html_attrs attrs ++ codes ">"
    else codes "<"
      ++ tag
      ++ html_attrs attrs
      ++ codes ">"
      ++ content
      ++ codes "</"
      ++ tag
      ++ codes ">"

pub empty_buffer : Job → Job
empty_buffer j = record j { buffer = [] }

is_empty_buffer : Job → Bool
is_empty_buffer j = is_empty j.buffer

pub add_raw : Text → Bool → Job → Job
add_raw text false j = record j { buffer = j.buffer ++ text }
add_raw text true j = record j { buffer = j.buffer ++ text ++ j.process.eol }

-- `addEOL`
pub add_eol : Job → Job
add_eol j = add_raw j.process.eol false j

-- `addRaw(element).addEOL()`
pub add_element : Text → Job → Job
add_element element j = add_eol (add_raw element false j)

-- `v && { k: v }`
pub optional : Text → Option Text → Dict Text
optional k none = []
optional k (some v) = if is_empty v then [] else (k, v) ∷ []

pub data Cell : Type 0 where
  plain : Text → Cell
  styled : Bool → Text → Option Text → Option Text → Cell

pub code_block : Text → Option Text → Text
code_block code lang =
    wrap (codes "pre") (wrap (codes "code") code []) (optional (codes "lang") lang)

list_items : List Text → Text
list_items [] = []
list_items (item ∷ items) = wrap (codes "li") item [] ++ list_items items

pub html_list : List Text → Bool → Text
html_list items ordered = wrap (if ordered then codes "ol" else codes "ul") (list_items items) []

table_cell : Cell → Text
table_cell (plain text) = wrap (codes "td") text []
table_cell (styled header text colspan rowspan) =
    wrap (if header then codes "th" else codes "td") text
      (optional (codes "colspan") colspan ++ optional (codes "rowspan") rowspan)

table_row : List Cell → Text
table_row [] = []
table_row (cell ∷ cells) = table_cell cell ++ table_row cells

pub table_body : List (List Cell) → Text
table_body [] = []
table_body (row ∷ rows) = wrap (codes "tr") (table_row row) [] ++ table_body rows

pub details : Text → Text → Text
details label content = wrap (codes "details") (wrap (codes "summary") label [] ++ content) []

pub image : Text → Text → Option Text → Option Text → Text
image src alt width height = wrap (codes "img") [] (
    (codes "src", src) ∷ (codes "alt", alt) ∷ optional (codes "width") width
    ++ optional (codes "height") height)

-- A level that is no heading of HTML gives the first one.
pub heading_tag : Text → Text
heading_tag level =
    let tag = codes "h" ++ level in
    if text_eq tag (codes "h1")
      || text_eq tag (codes "h2")
      || text_eq tag (codes "h3")
      || text_eq tag (codes "h4")
      || text_eq tag (codes "h5")
      || text_eq tag (codes "h6")
    then tag
    else codes "h1"

-- What the methods that add to a summary are called with.
pub data Element : Type 0 where
  raw_text : Text → Bool → Element
  end_of_line : Element
  code_element : Text → Option Text → Element
  list_element : List Text → Bool → Element
  table_element : List (List Cell) → Element
  details_element : Text → Text → Element
  image_element : Text → Text → Option Text → Option Text → Element
  heading_element : Text → Text → Element
  separator : Element
  line_break : Element
  quote_element : Text → Option Text → Element
  link_element : Text → Text → Element

-- The methods addRaw, addEOL, addCodeBlock, addList, addTable, addDetails, addImage, addHeading,
-- addSeparator, addBreak, addQuote and addLink.
unfoldable pub add : Element → Job → Job
add (raw_text text eol) j = add_raw text eol j
add end_of_line j = add_eol j
add (code_element text lang) j = add_element (code_block text lang) j
add (list_element texts ordered) j = add_element (html_list texts ordered) j
add (table_element rows) j = add_element (wrap (codes "table") (table_body rows) []) j
add (details_element label content) j = add_element (details label content) j
add (image_element src alt width height) j = add_element (image src alt width height) j
add (heading_element text level) j = add_element (wrap (heading_tag level) text []) j
add separator j = add_element (wrap (codes "hr") [] []) j
add line_break j = add_element (wrap (codes "br") [] []) j
add (quote_element text cite) j =
    add_element (wrap (codes "blockquote") text (optional (codes "cite") cite)) j
add (link_element text href) j = add_element (wrap (codes "a") text ((codes "href", href) ∷ [])) j

pub add_all : List Element → Job → Job
add_all [] j = j
add_all (e ∷ es) j = add_all es (add e j)

abbrev pub summary_env_var : Text
summary_env_var = codes "GITHUB_STEP_SUMMARY"

missing_variable : Thrown
missing_variable = error (codes "Error") (
    codes
      "Unable to find environment variable for $GITHUB_STEP_SUMMARY. Check if your runtime environment supports job summaries.")

no_access : Text → Thrown
no_access path = error (codes "Error") (
    codes "Unable to access summary file: '"
    ++ path
    ++ codes "'. Check if the file has correct read/write permissions.")

-- What a file holds once a text is appended to it.
pub appended : Option Text → Text → Text
appended none text = text
appended (some old) text = old ++ text

-- writeFile and appendFile
unfoldable pub put : Bool → Text → Text → Process → Process
put true path text p = record p { files = insert path text p.files }
put false path text p = record p {
  files = insert path (appended (lookup path p.files) text) p.files;
}

pub written : Bool → Job → Result Thrown Text → Result Thrown (Unit {0}) × Job
written overwrite j (err e) = (err e, j)
written overwrite j (ok path) = (
  ok tt,
  empty_buffer
      (record j { file_path = some path; process = put overwrite path j.buffer j.process }),
)

module _ (access : Text → Process → Bool) where
  -- The path that was found before, or the one that the environment names.
  pub found_path : Option Text → Process → Result Thrown Text
  unfolding missing_variable no_access
  found_path (some path) p = ok path
  found_path none p =
      let path = env_text summary_env_var p in
      if is_empty path
      then err missing_variable
      else if access path p
      then ok path
      else err (no_access path)

  pub write_summary : Bool → Effect Job Thrown (Unit {0})
  unfolding written
  write_summary overwrite j = written overwrite j (found_path j.file_path j.process)

  -- The buffer is emptied also where the write then throws.
  clear : Effect Job Thrown (Unit {0})
  clear j = write_summary true (empty_buffer j)
