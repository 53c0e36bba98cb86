-- ===== src/Publisher/Publishing.antt =====
-- How a batch is published (services/publisher/publisher.go: publishNextBatch, shouldSkipPublishing
-- and handleScannerBlock). Signing, IPFS, the alert API, the webhook and the writes of the two string
-- stores are parameters: each returns a value or an error, and changes a state of its own. Whether
-- it is time to flush metrics is an argument.
pub mod Chaining
use forta_node_tr.Prelude.{
  ℕ, ◌==◌, ltb, Text, codes, List, [], ◌∷◌, ◌++◌, Bool, true, false, Option, none, some,
  if◌then◌else◌, ok, err, Effect, pure, modify, ◌>>=◌, ◌>>◌,
}
use forta_node_tr.Publisher.Batch.{AlertBatch}

pub record Settings : Type 0 where
  pub skip_publish : Bool
  pub skip_empty : Bool
  pub private_mode : Bool
  pub scanner_version : Option Text

-- The batch with what is added to it before it is signed.
pub record Outgoing (M : Type 0) : Type 0 where
  pub batch : AlertBatch
  pub metrics : List M
  pub scanner_version : Option Text
  pub parent : Text
  pub latest_block_input : ℕ

pub record Services (S M : Type 0) : Type 0 where
  pub sign_batch : Outgoing M → Effect S Text Text
  pub encode : Text → Effect S Text Text
  pub send_alerts : Outgoing M → Effect S Text (Unit {0})
  pub calculate_file_hash : Text → Effect S Text Text
  pub put_batch_ref : Text → Effect S Text (Unit {0})
  pub sign_summary : Text → Text → Outgoing M → Effect S Text Text
  pub create_scanner_jwt : Text → Effect S Text Text
  pub post_batch : Text → Text → Text → Outgoing M → Text → Effect S Text (Option Text)
  pub put_receipt : Text → Effect S Text (Unit {0})

-- `posts` logs the reference and the batch of each call of the alert API.
pub record Publisher (S M : Type 0) : Type 0 where
  pub services : S
  pub last_batch_ref : Option Text
  pub last_receipt : Option Text
  pub pending_metrics : List M
  pub latest_block_input : ℕ
  pub skip_reasons : List Text
  pub posts : List (Text × Outgoing M)

abbrev default_reason : Text
default_reason = codes "because there are no alerts"

-- `shouldSkipPublishing`: the reason, if the batch is to be skipped.
unfoldable pub should_skip_publishing : Settings → AlertBatch → Option Text
should_skip_publishing cfg b =
    if ltb 0 b.alert_count
    then none
    else if cfg.private_mode
    then some (default_reason ++ codes " and private mode is enabled")
    else if cfg.skip_empty
    then some (default_reason ++ codes " and skipEmpty is enabled")
    else none

abbrev text_or_empty : Option Text → Text
text_or_empty none = []
text_or_empty (some t) = t

module _ {S M : Type 0} where
  handle_scanner_block : ℕ → Publisher S M → Publisher S M
  handle_scanner_block n p =
      if ltb n p.latest_block_input then p else record p { latest_block_input = n }

  -- `TryFlush`, at the time when it flushes or not, for a batch that is not skipped.
  unfoldable pub try_flush : Bool → Option Text → Publisher S M → List M × Publisher S M
  try_flush flush (some reason) p = ([], p)
  try_flush flush none p =
      if flush then (p.pending_metrics, record p { pending_metrics = [] }) else ([], p)

  unfoldable pub outgoing : Settings → AlertBatch → List M → Publisher S M → Outgoing M
  outgoing cfg b ms p = record {
    batch = b;
    metrics = ms;
    scanner_version = cfg.scanner_version;
    parent = text_or_empty p.last_batch_ref;
    latest_block_input = if p.latest_block_input == 0 then b.block_end else p.latest_block_input;
  }

  unfoldable pub on_services : {A : Type 0} → Effect S Text A → Effect (Publisher S M) Text A
  on_services f p =
      let (r, s) = f p.services in
      let p' = record p { services = s } in elim r [ ok a ↦ (ok a, p') | err e ↦ (err e, p') ]

  unfoldable pub skip : Text → Effect (Publisher S M) Text (Unit {0})
  skip reason = modify (λ p. record p { skip_reasons = p.skip_reasons ++ (reason ∷ []) })

  unfoldable pub log_post : Text → Outgoing M → Effect (Publisher S M) Text (Unit {0})
  log_post cid o = modify (λ p. record p { posts = p.posts ++ ((cid, o) ∷ []) })

module _ {S M : Type 0} (services : Services S M) where
  -- The steps of publishNextBatch, from its end: the receipt is stored, if there is one.
  unfoldable pub store_receipt : Option Text → Effect (Publisher S M) Text (Unit {0})
  unfolding on_services
  store_receipt none = pure tt
  store_receipt (some id) =
      on_services (services.put_receipt id) >> modify (λ p. record p { last_receipt = some id })

  unfoldable pub post :
      Text → Text → Outgoing M → Text → Text → Effect (Publisher S M) Text (Unit {0})
  unfolding on_services log_post store_receipt
  post signed cid o summary jwt =
      log_post cid o
      >> (on_services (services.post_batch cid signed summary o jwt) >>= store_receipt)

  unfoldable pub authorize :
      Text → Text → Outgoing M → Text → Effect (Publisher S M) Text (Unit {0})
  unfolding on_services post
  authorize signed cid o summary =
      on_services (services.create_scanner_jwt cid) >>= post signed cid o summary

  unfoldable pub summarize : Text → Text → Outgoing M → Effect (Publisher S M) Text (Unit {0})
  unfolding on_services authorize
  summarize signed cid o p =
      (on_services (services.sign_summary cid (text_or_empty p.last_receipt) o)
          >>= authorize signed cid o)
        p

  unfoldable pub store_ref : Text → Outgoing M → Text → Effect (Publisher S M) Text (Unit {0})
  unfolding on_services summarize
  store_ref signed o cid =
      on_services (services.put_batch_ref cid)
      >> (modify (λ p. record p { last_batch_ref = some cid }) >> summarize signed cid o)

  unfoldable pub publish_public : Text → Text → Outgoing M → Effect (Publisher S M) Text (Unit {0})
  unfolding on_services store_ref
  publish_public signed payload o =
      on_services (services.calculate_file_hash payload) >>= store_ref signed o

  unfoldable pub publish_signed :
      Bool → Bool → Option Text → Text → Outgoing M → Text → Effect (Publisher S M) Text (Unit {0})
  unfolding on_services skip publish_public
  publish_signed true private_mode reason signed o payload =
      skip (codes "skipping batch, because skipPublish is enabled")
  publish_signed false private_mode (some r) signed o payload = skip r
  publish_signed false true none signed o payload = on_services (services.send_alerts o)
  publish_signed false false none signed o payload = publish_public signed payload o

  unfoldable pub encode_and_publish :
      Settings → Outgoing M → Text → Effect (Publisher S M) Text (Unit {0})
  unfolding on_services publish_signed should_skip_publishing
  encode_and_publish cfg o signed =
      on_services (services.encode signed)
      >>= publish_signed cfg.skip_publish cfg.private_mode (should_skip_publishing cfg o.batch)
          signed o

  unfoldable pub publish_next_batch :
      Settings → Bool → AlertBatch → Effect (Publisher S M) Text (Unit {0})
  unfolding on_services encode_and_publish try_flush outgoing should_skip_publishing
  publish_next_batch cfg flush b p =
      let (ms, p') = try_flush flush (should_skip_publishing cfg b) p in
      let o = outgoing cfg b ms p' in
      (on_services (services.sign_batch o) >>= encode_and_publish cfg o) p'
