-- ===== src/Gateway/Server/Messages.antt =====
-- The messages that the proxy sends upstream, one by one.
use hackaway_repo.Base.{
  String, Bool, true, false, some, List, [], ◌∷◌, ◌≡◌, subst, inl, inr, arith, Option-cases,
  Bool-cases,
}
use hackaway_repo.Gateway.Server.{
  Value, null, flag, number, text, listing, mapping, Values, nil, cons, Dict, set, get_or, is_text,
  Regex, Redaction, redact, redact_value, redact_text_block, redact_block, redact_blocks,
  redact_content, redact_message, redact_messages,
}
use hackaway_repo.Gateway.Server.Laws.{Through, redact-Through}

module _ (re : Regex) (patterns : List (re.Pattern × String)) where
  -- The one or the other, by a test.
  abbrev Either : Bool → Type 0 → Type 0 → Type 0
  Either true P Q = P
  Either false P Q = Q

  -- A text goes through the patterns; with no patterns anything passes.
  abbrev TextPassed : Value → Value → Type 0
  TextPassed (text s) w = (t : String) × (w ≡ text t) × Through re patterns s t
  TextPassed v w = w ≡ v

  -- Of a block of type text the text alone is replaced; another value passes as it is.
  abbrev BlockPassed : Value → Value → Type 0
  BlockPassed (mapping d) w =
      Either (is_text "text" (get_or "type" null d))
        ((x : Value) × (w ≡ mapping (set "text" x d)) × TextPassed (get_or "text" (text "") d) x)
        (w ≡ mapping d)
  BlockPassed v w = w ≡ v

  abbrev BlocksPassed : Values → Values → Type 0
  BlocksPassed nil nil = Unit
  BlocksPassed (cons v vs) (cons w ws) = BlockPassed v w × BlocksPassed vs ws
  BlocksPassed nil (cons w ws) = ⊥
  BlocksPassed (cons v vs) nil = ⊥

  abbrev ContentPassed : Dict → Value → Dict → Type 0
  ContentPassed msg (text s) new =
      (t : String) × (new ≡ set "content" (text t) msg) × Through re patterns s t
  ContentPassed msg (listing vs) new =
      (ws : Values) × (new ≡ set "content" (listing ws) msg) × BlocksPassed vs ws
  ContentPassed msg v new = new ≡ msg

  -- Of a message of a user the content alone is replaced; another message passes as it is.
  abbrev pub Passed : Dict → Dict → Type 0
  Passed msg new =
      Either (is_text "user" (get_or "role" null msg))
        (ContentPassed msg (get_or "content" (text "") msg) new) (new ≡ msg)

  abbrev pub AllPassed : List Dict → List Dict → Type 0
  AllPassed [] [] = Unit
  AllPassed (msg ∷ messages) (new ∷ cleaned) = Passed msg new × AllPassed messages cleaned
  AllPassed [] (new ∷ cleaned) = ⊥
  AllPassed (msg ∷ messages) [] = ⊥

  redact_value-Passed :
      (v w : Value) (redactions : List Redaction)
      → redact_value re patterns v ≡ some (w, redactions)
      → TextPassed v w
  unfolding redact_value
  redact_value-Passed (text s) w redactions done = elim (Option-cases (redact re patterns s)) [
    | inl raised ↦ absurd (ground arith)
    | inr ((t, rest), last) ↦ (t, ground arith, redact-Through re patterns s t rest last)
  ]
  redact_value-Passed null w redactions done = ground arith
  redact_value-Passed (flag b) w redactions done = ground arith
  redact_value-Passed (number n) w redactions done = ground arith
  redact_value-Passed (listing vs) w redactions done = ground arith
  redact_value-Passed (mapping d) w redactions done = ground arith

  redact_block-Passed :
      (v w : Value) (redactions : List Redaction)
      → redact_block re patterns v ≡ some (w, redactions)
      → BlockPassed v w
  unfolding redact_block redact_text_block
  redact_block-Passed (mapping d) w redactions done =
      elim (Bool-cases (is_text "text" (get_or "type" null d))) [
        | inl textual ↦ elim (Option-cases (redact_value re patterns (get_or "text" (text "") d))) [
          | inl raised ↦ absurd (ground arith)
          | inr ((x, rest), last) ↦
              rw textual
                (x, ground arith, redact_value-Passed (get_or "text" (text "") d) x rest last)
        ]
        | inr other ↦ rw other (ground arith)
      ]
  redact_block-Passed (text s) w redactions done = ground arith
  redact_block-Passed null w redactions done = ground arith
  redact_block-Passed (flag b) w redactions done = ground arith
  redact_block-Passed (number n) w redactions done = ground arith
  redact_block-Passed (listing vs) w redactions done = ground arith

  redact_blocks-Passed :
      (vs ws : Values) (redactions : List Redaction)
      → redact_blocks re patterns vs ≡ some (ws, redactions)
      → BlocksPassed vs ws
  unfolding redact_blocks
  redact_blocks-Passed nil nil redactions done = tt
  redact_blocks-Passed nil (cons w ws) redactions done = ground arith
  redact_blocks-Passed (cons v vs) ws redactions done =
      elim (Option-cases (redact_block re patterns v)) [
        | inl raised ↦ absurd (ground arith)
        | inr ((w, first), one) ↦ elim (Option-cases (redact_blocks re patterns vs)) [
          | inl raised ↦ absurd (ground arith)
          | inr ((rest, more), last) ↦
              subst (BlocksPassed (cons v vs)) {x = cons w rest} (ground arith)
                (redact_block-Passed v w first one, redact_blocks-Passed vs rest more last)
        ]
      ]

  redact_content-Passed :
      (msg new : Dict) (v : Value) (redactions : List Redaction)
      → redact_content re patterns msg v ≡ some (new, redactions)
      → ContentPassed msg v new
  unfolding redact_content
  redact_content-Passed msg new (text s) redactions done =
      elim (Option-cases (redact re patterns s)) [
        | inl raised ↦ absurd (ground arith)
        | inr ((t, rest), last) ↦ (t, ground arith, redact-Through re patterns s t rest last)
      ]
  redact_content-Passed msg new (listing vs) redactions done =
      elim (Option-cases (redact_blocks re patterns vs)) [
        | inl raised ↦ absurd (ground arith)
        | inr ((ws, rest), last) ↦ (ws, ground arith, redact_blocks-Passed vs ws rest last)
      ]
  redact_content-Passed msg new null redactions done = ground arith
  redact_content-Passed msg new (flag b) redactions done = ground arith
  redact_content-Passed msg new (number n) redactions done = ground arith
  redact_content-Passed msg new (mapping d) redactions done = ground arith

  redact_message-Passed :
      (msg new : Dict) (redactions : List Redaction)
      → redact_message re patterns msg ≡ some (new, redactions)
      → Passed msg new
  unfolding redact_message
  redact_message-Passed msg new redactions done =
      elim (Bool-cases (is_text "user" (get_or "role" null msg))) [
        | inl user ↦ rw user (
            redact_content-Passed msg new (get_or "content" (text "") msg) redactions
              (rw user at done))
        | inr other ↦ rw other (ground arith)
      ]

  -- Where the redaction raises nothing, as many messages come out as went in, in their order; one that
  -- is not of a user is as it was; of one of a user the content alone is replaced, and a content that
  -- is a text, and the text of each of its blocks of type text, goes through the patterns; the other
  -- blocks and the other fields of these are as they were.
  pub redact_messages-Passed :
      (messages cleaned : List Dict) (redactions : List Redaction)
      → redact_messages re patterns messages ≡ some (cleaned, redactions)
      → AllPassed messages cleaned
  unfolding redact_messages
  redact_messages-Passed [] [] redactions done = tt
  redact_messages-Passed [] (new ∷ cleaned) redactions done = ground arith
  redact_messages-Passed (msg ∷ messages) cleaned redactions done =
      elim (Option-cases (redact_message re patterns msg)) [
        | inl raised ↦ absurd (ground arith)
        | inr ((new, first), one) ↦ elim (Option-cases (redact_messages re patterns messages)) [
          | inl raised ↦ absurd (ground arith)
          | inr ((rest, more), last) ↦
              subst (AllPassed (msg ∷ messages)) {x = new ∷ rest} (ground arith) (
                redact_message-Passed msg new first one,
                redact_messages-Passed messages rest more last,
              )
        ]
      ]
