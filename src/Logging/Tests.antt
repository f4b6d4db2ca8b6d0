-- ===== src/Logging/Tests.antt =====
-- Events with secrets.
use thryve_financial.Base.{◌≡◌, refl, String, true, false, strip, lstrip, rstrip, arith}
use thryve_financial.Logging.{
  Value, scalar, dictionary, no_entries, entry_then, text_key, should_redact_key, normalize_key,
  underscored, any_found, found_in, matches_here, spelled, sensitive_patterns,
  redact_sensitive_fields,
}
use thryve_financial.Logging.Redaction.{both_dictionaries, both_empty, both_hidden, redaction_hides}

abbrev identity : String → String
identity s = s

key_hidden : should_redact_key identity (text_key "X-Api-KeY") ≡ true
unfolding should_redact_key normalize_key underscored any_found found_in matches_here spelled
    sensitive_patterns strip lstrip rstrip
key_hidden = refl

key_shown : should_redact_key identity (text_key "path") ≡ false
unfolding should_redact_key normalize_key underscored any_found found_in matches_here spelled
    sensitive_patterns strip lstrip rstrip
key_shown = refl

abbrev login : String → Value
login secret = dictionary (entry_then (text_key "X-Api-KeY") (scalar secret) no_entries)

redaction_hides_example :
    redact_sensitive_fields identity (login "one") ≡ redact_sensitive_fields identity (login "two")
redaction_hides_example = redaction_hides identity (login "one") (login "two") (
    both_dictionaries (omega arith)
      (both_hidden (text_key "X-Api-KeY") (scalar "one") (scalar "two") key_hidden both_empty))
