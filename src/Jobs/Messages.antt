-- ===== src/Jobs/Messages.antt =====
-- ingestion/jobs.py: the error text that a job row keeps.
use rag_support_assistant.Prelude.{
  ℕ, ◌-◌, ◌≤◌, ltb, String, arith, inl, inr, Bool-cases, if◌then◌else◌,
}
use rag_support_assistant.Text
use rag_support_assistant.Jobs.{safe_error_message}

-- Whatever the redaction makes of a message, the text that is stored has at most `limit` characters,
-- the mark of a cut included, as long as the limit leaves room for that mark.
pub length-safe_error_message :
    (redact : String → String) (exc : String) (limit : ℕ)
    → 3 ≤ limit
    → Text.length (safe_error_message redact exc limit) ≤ limit
unfolding safe_error_message
length-safe_error_message redact exc limit room =
    bounded (redact (Text.or_else (Text.strip exc) "unknown error"))
  where
    bounded :
        (text : String)
        → Text.length
            (if ltb limit (Text.length text) then Text.take_append (limit - 3) text "..." else text)
          ≤ limit
    bounded text = elim (Bool-cases (ltb limit (Text.length text))) [
      | inl long ↦ rw long (omega (arith, Text.length-take_append (limit - 3) text "..."))
      | inr short ↦ rw short (ground arith)
    ]
