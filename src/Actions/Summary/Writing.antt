-- ===== src/Actions/Summary/Writing.antt =====
-- What becomes of the pieces that are added to a job summary (.github/actions/propose/dist/index.js).
use forta_node_tr.Prelude.{
  Text, Dict, List, [], ◌∷◌, ◌++◌, Bool, true, false, Option, none, some, codes, lookup, insert,
  Result, ok, err, ◌≡◌, refl, sym, ap, ◌∙◌, append_assoc, append-nil, text_eq, text_eq_iff,
  lookup-insert_self, Bool-cases, inl, inr,
}
use forta_node_tr.Js.{Thrown}
use forta_node_tr.Actions.Process.{Process}
use forta_node_tr.Actions.Summary.{
  Job, Element, raw_text, end_of_line, code_element, list_element, table_element, details_element,
  image_element, heading_element, separator, line_break, quote_element, link_element, wrap,
  optional, code_block, html_list, table_body, details, image, heading_tag, add, add_all, add_raw,
  add_eol, add_element, empty_buffer, found_path, put, appended, written, write_summary,
}

-- The HTML of a piece, with the line end that follows it.
markup : Text → Element → Text
markup eol (raw_text text false) = text
markup eol (raw_text text true) = text ++ eol
markup eol end_of_line = eol
markup eol (code_element text lang) = code_block text lang ++ eol
markup eol (list_element texts ordered) = html_list texts ordered ++ eol
markup eol (table_element rows) = wrap (codes "table") (table_body rows) [] ++ eol
markup eol (details_element label content) = details label content ++ eol
markup eol (image_element src alt width height) = image src alt width height ++ eol
markup eol (heading_element text level) = wrap (heading_tag level) text [] ++ eol
markup eol separator = wrap (codes "hr") [] [] ++ eol
markup eol line_break = wrap (codes "br") [] [] ++ eol
markup eol (quote_element text cite) =
    wrap (codes "blockquote") text (optional (codes "cite") cite) ++ eol
markup eol (link_element text href) = wrap (codes "a") text ((codes "href", href) ∷ []) ++ eol

pub document : Text → List Element → Text
document eol [] = []
document eol (e ∷ es) = markup eol e ++ document eol es

abbrev with_buffer : Job → Text → Job
with_buffer j text = record j { buffer = text }

add_element_lem :
    (text : Text) (j : Job)
    → add_element text j ≡ with_buffer j (j.buffer ++ (text ++ j.process.eol))
unfolding add_element add_eol add_raw
add_element_lem text j = ap (with_buffer j) (append_assoc j.buffer text j.process.eol)

add_lem : (e : Element) (j : Job) → add e j ≡ with_buffer j (j.buffer ++ markup j.process.eol e)
unfolding add add_raw add_eol markup
add_lem (raw_text text false) j = refl
add_lem (raw_text text true) j = ap (with_buffer j) (append_assoc j.buffer text j.process.eol)
add_lem end_of_line j = refl
add_lem (code_element text lang) j = add_element_lem _ j
add_lem (list_element texts ordered) j = add_element_lem _ j
add_lem (table_element rows) j = add_element_lem _ j
add_lem (details_element label content) j = add_element_lem _ j
add_lem (image_element src alt width height) j = add_element_lem _ j
add_lem (heading_element text level) j = add_element_lem _ j
add_lem separator j = add_element_lem _ j
add_lem line_break j = add_element_lem _ j
add_lem (quote_element text cite) j = add_element_lem _ j
add_lem (link_element text href) j = add_element_lem _ j

add_all_lem :
    (es : List Element) (j : Job)
    → add_all es j ≡ with_buffer j (j.buffer ++ document j.process.eol es)
unfolding add_all document
add_all_lem [] j = ap (with_buffer j) (sym (append-nil j.buffer))
add_all_lem (e ∷ es) j =
    ap (add_all es) (add_lem e j)
    ∙ add_all_lem es (with_buffer j (j.buffer ++ markup j.process.eol e))
    ∙ ap (with_buffer j)
        (append_assoc j.buffer (markup j.process.eol e) (document j.process.eol es))

insert_twice : (k v w : Text) (d : Dict Text) → insert k w (insert k v d) ≡ insert k w d
unfolding insert
insert_twice k v w [] = rw ((text_eq_iff k k).1 refl) refl
insert_twice k v w ((j, x) ∷ d) = elim (Bool-cases (text_eq j k)) [
  | inl e ↦ rw (e, e) refl
  | inr e ↦ rw (e, e) (ap (λ r. (j, x) ∷ r) (insert_twice k v w d))
]

appended_twice : (o : Option Text) (a b : Text) → appended o a ++ b ≡ appended o (a ++ b)
unfolding appended
appended_twice none a b = refl
appended_twice (some old) a b = append_assoc old a b

put_twice :
    (path a b : Text) (p : Process)
    → put false path b (put false path a p) ≡ put false path (a ++ b) p
unfolding put appended
put_twice path a b p =
    let d = p.files in
    let v = appended (lookup path d) a in
    ap (λ f. record p { files = f })
      (ap (λ o. insert path (appended o b) (insert path v d)) (lookup-insert_self path v d)
        ∙ insert_twice path v (v ++ b) d
        ∙ ap (λ w. insert path w d) (appended_twice (lookup path d) a b))

document-append :
    (eol : Text) (es fs : List Element)
    → document eol (es ++ fs) ≡ document eol es ++ document eol fs
unfolding document
document-append eol [] fs = refl
document-append eol (e ∷ es) fs =
    ap (λ t. markup eol e ++ t) (document-append eol es fs)
    ∙ sym (append_assoc (markup eol e) (document eol es) (document eol fs))

written_lem :
    (overwrite : Bool) (j : Job) (r : Result Thrown Text)
    → written overwrite j r ≡ (elim r [
      | ok path ↦ (
        ok tt,
        record {
          buffer = [];
          file_path = some path;
          process = put overwrite path j.buffer j.process;
        },
      )
      | err e ↦ (err e, j)
    ])
unfolding written empty_buffer
written_lem overwrite j (ok path) = refl
written_lem overwrite j (err e) = refl

module _ (access : Text → Process → Bool) where
  pub write_summary-add_all :
      (es : List Element) (overwrite : Bool) (j : Job)
      → write_summary access overwrite (add_all es j)
        ≡ (elim (found_path access j.file_path j.process) [
          | ok path ↦ (
            ok tt,
            record {
              buffer = [];
              file_path = some path;
              process = put overwrite path (j.buffer ++ document j.process.eol es) j.process;
            },
          )
          | err e ↦ (err e, record j { buffer = j.buffer ++ document j.process.eol es })
        ])
  unfolding write_summary
  write_summary-add_all es overwrite j =
      ap (write_summary access overwrite) (add_all_lem es j)
      ∙ written_lem overwrite (with_buffer j (j.buffer ++ document j.process.eol es))
          (found_path access j.file_path j.process)

  write_ok :
      (es : List Element) (j : Job) (path : Text)
      → found_path access j.file_path j.process ≡ ok path
      → write_summary access false (add_all es j) ≡ (
        ok tt,
        record {
          buffer = [];
          file_path = some path;
          process = put false path (j.buffer ++ document j.process.eol es) j.process;
        },
      )
  write_ok es j path h = write_summary-add_all es false j ∙ rw h refl

  -- Two writes that append, one after the other, leave the file that one write of all pieces
  -- leaves.
  pub write_summary-twice :
      (es fs : List Element) (j : Job) (path : Text)
      → found_path access j.file_path j.process ≡ ok path
      → write_summary access false (add_all fs (write_summary access false (add_all es j)).1)
        ≡ write_summary access false (add_all (es ++ fs) j)
  unfolding found_path put
  write_summary-twice es fs j path h =
      let eol = j.process.eol in
      let text = j.buffer ++ document eol es in
      let j' : Job = record {
        buffer = [];
        file_path = some path;
        process = put false path text j.process;
      } in
      ap (λ x. write_summary access false (add_all fs x.1)) (write_ok es j path h)
      ∙ write_ok fs j' path refl
      ∙ ap (λ p. (ok tt, record { buffer = []; file_path = some path; process = p }))
          (put_twice path text (document eol fs) j.process
            ∙ ap (λ t. put false path t j.process)
                (append_assoc j.buffer (document eol es) (document eol fs)
                  ∙ ap (λ t. j.buffer ++ t) (sym (document-append eol es fs))))
      ∙ sym (write_ok (es ++ fs) j path h)
