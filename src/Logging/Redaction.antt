-- ===== src/Logging/Redaction.antt =====
-- What the redaction of an event hides, and what it does not.
use thryve_financial.Base.{ℕ, zero, suc, ◌+◌, ◌≤◌, ◌<◌, ◌≡◌, refl, ap, String, true, false, arith}
use thryve_financial.Logging.{
  Key, Value, Values, Entries, scalar, dictionary, sequence, tuple, no_values, value_then,
  no_entries, entry_then, max_redaction_depth, should_redact_key, sanitize_value, sanitize_values,
  sanitize_entries, redact_sensitive_fields,
}

-- A value inside so many dictionaries of one entry with the key.
abbrev pub nested : ℕ → Key → Value → Value
nested zero key v = v
nested (suc n) key v = dictionary (entry_then key (nested n key v) no_entries)

module _ (lower : String → String) where
  mutual
    -- Values at a depth that differ only under sensitive keys of dictionaries that are looked at.
    pub data Alike : ℕ → Value → Value → Type 0 where
      same : {d : ℕ} (v : Value) → Alike d v v
      both_dictionaries :
          {d : ℕ} {es fs : Entries}
          → d < max_redaction_depth
          → AlikeEntries (suc d) es fs
          → Alike d (dictionary es) (dictionary fs)
      both_sequences :
          {d : ℕ} {vs ws : Values}
          → d < max_redaction_depth
          → AlikeValues (suc d) vs ws
          → Alike d (sequence vs) (sequence ws)
      both_tuples :
          {d : ℕ} {vs ws : Values}
          → d < max_redaction_depth
          → AlikeValues (suc d) vs ws
          → Alike d (tuple vs) (tuple ws)

    pub data AlikeValues : ℕ → Values → Values → Type 0 where
      both_end : {d : ℕ} → AlikeValues d no_values no_values
      both_go_on :
          {d : ℕ} {v w : Value} {vs ws : Values}
          → Alike d v w
          → AlikeValues d vs ws
          → AlikeValues d (value_then v vs) (value_then w ws)

    pub data AlikeEntries : ℕ → Entries → Entries → Type 0 where
      both_empty : {d : ℕ} → AlikeEntries d no_entries no_entries
      both_hidden :
          {d : ℕ} {es fs : Entries} (key : Key) (v w : Value)
          → should_redact_key lower key ≡ true
          → AlikeEntries d es fs
          → AlikeEntries d (entry_then key v es) (entry_then key w fs)
      both_shown :
          {d : ℕ} {v w : Value} {es fs : Entries} (key : Key)
          → Alike d v w
          → AlikeEntries d es fs
          → AlikeEntries d (entry_then key v es) (entry_then key w fs)

  mutual
    unfolding sanitize_value sanitize_values sanitize_entries

    sanitize_value-Alike :
        {d : ℕ} {v w : Value} → Alike d v w → sanitize_value lower d v ≡ sanitize_value lower d w
    sanitize_value-Alike (same v) = refl
    sanitize_value-Alike (both_dictionaries shallow h) =
        ground (arith, ap dictionary (sanitize_entries-AlikeEntries h))
    sanitize_value-Alike (both_sequences shallow h) =
        ground (arith, ap sequence (sanitize_values-AlikeValues h))
    sanitize_value-Alike (both_tuples shallow h) =
        ground (arith, ap tuple (sanitize_values-AlikeValues h))

    sanitize_values-AlikeValues :
        {d : ℕ} {vs ws : Values}
        → AlikeValues d vs ws
        → sanitize_values lower d vs ≡ sanitize_values lower d ws
    sanitize_values-AlikeValues both_end = refl
    sanitize_values-AlikeValues (both_go_on h rest) =
        ground (arith, sanitize_value-Alike h, sanitize_values-AlikeValues rest)

    sanitize_entries-AlikeEntries :
        {d : ℕ} {es fs : Entries}
        → AlikeEntries d es fs
        → sanitize_entries lower d es ≡ sanitize_entries lower d fs
    sanitize_entries-AlikeEntries both_empty = refl
    sanitize_entries-AlikeEntries (both_hidden key v w hidden rest) =
        ground (arith, sanitize_entries-AlikeEntries rest)
    sanitize_entries-AlikeEntries (both_shown key h rest) =
        ground (arith, sanitize_value-Alike h, sanitize_entries-AlikeEntries rest)

  -- Two events that differ only under sensitive keys, at less than the greatest depth, are redacted to
  -- the same event: nothing of those values is logged.
  pub redaction_hides :
      (v w : Value)
      → Alike 0 v w
      → redact_sensitive_fields lower v ≡ redact_sensitive_fields lower w
  unfolding redact_sensitive_fields
  redaction_hides v w h = sanitize_value-Alike h

  sanitize_value-deep :
      (depth : ℕ) (v : Value) → max_redaction_depth ≤ depth → sanitize_value lower depth v ≡ v
  unfolding sanitize_value
  sanitize_value-deep depth (scalar s) deep = refl
  sanitize_value-deep depth (dictionary es) deep = ground arith
  sanitize_value-deep depth (sequence vs) deep = ground arith
  sanitize_value-deep depth (tuple vs) deep = ground arith

  sanitize_value-nested :
      (n depth : ℕ) (key : Key) (v : Value)
      → should_redact_key lower key ≡ false
      → max_redaction_depth ≤ n + depth
      → sanitize_value lower depth (nested n key v) ≡ nested n key v
  unfolding sanitize_value sanitize_entries
  sanitize_value-nested zero depth key v shown deep = sanitize_value-deep depth v (omega arith)
  sanitize_value-nested (suc n) depth key v shown deep =
      ground (arith, sanitize_value-nested n (suc depth) key v shown (omega arith))

  -- An event whose values lie inside eight dictionaries or more, under keys that are not sensitive, is
  -- logged as it is, whatever the keys and values inside are.
  pub deep_values_logged :
      (n : ℕ) (key : Key) (v : Value)
      → should_redact_key lower key ≡ false
      → max_redaction_depth ≤ n
      → redact_sensitive_fields lower (nested n key v) ≡ nested n key v
  unfolding redact_sensitive_fields
  deep_values_logged n key v shown deep = sanitize_value-nested n 0 key v shown (omega arith)
