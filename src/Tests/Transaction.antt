-- ===== src/Tests/Transaction.antt =====
-- The theorems on the transaction of Apply at concrete inputs.
use omarchy_premonition.Daemon.Jobs.{proposal_text}
use omarchy_premonition.Base.{
  false, [], ◌∷◌, some, ◌≡◌, refl, text, starts_with, is_ascii_alphanumeric, decimal_digits,
  decimal, all, ok,
}
use omarchy_premonition.Apply.Journal.{
  Staging, Journal, JournalKind, Phase, validate_journal, validate_transaction_id, prepare,
  stage_entries, hash_entries, hash_source, hash_result, entry_name,
}
use omarchy_premonition.Apply.Journal.Accepted.{validate_journal-prepare}
use omarchy_premonition.Apply.Journal.Names.{validate_transaction_id-proposal_text}
use omarchy_premonition.Tests.Patches.{modify_patch, modify_parsed, parse-modify_patch}

-- Everything succeeds, and the digests are fixed texts.
abbrev staging : Staging
staging = record {
  create_stage = ok tt;
  create_parent = λ _. ok tt;
  copy_source = λ _. ok (text "aa");
  hash_staged = λ _. ok (text "bb");
  git_check = ok tt;
  git_apply = ok tt;
  revalidate = ok tt;
}

abbrev journal : Journal
journal = record {
  version = 1;
  repository_root = text "/repo";
  phase = Phase.prepared;
  entries =
      record {
        relative = text "src/main.rs";
        kind = JournalKind.modify;
        temporary = text ".premonition-p-1-1-0.new";
        backup = text ".premonition-p-1-1-0.bak";
        pre_hash = some (text "aa");
        post_hash = some (text "bb");
        published = false;
      }
      ∷ [];
}

validate_journal-prepare_example :
    validate_journal (record journal { phase = Phase.publishing }) ≡ ok tt
unfolding prepare stage_entries hash_entries hash_source hash_result entry_name decimal
    decimal_digits validate_transaction_id all is_ascii_alphanumeric starts_with
validate_journal-prepare_example =
    validate_journal-prepare staging (text "p-1-1") (text "/repo") modify_patch modify_parsed
      journal Phase.publishing parse-modify_patch refl refl refl

validate_transaction_id-proposal_text_example :
    validate_transaction_id (proposal_text 1700000000000 7) ≡ ok tt
validate_transaction_id-proposal_text_example =
    validate_transaction_id-proposal_text 1700000000000 7
