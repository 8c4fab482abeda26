-- ===== src/Drops/Tests.antt =====
-- Tests and witnesses of the names of dropped files.
use sessionhub.Base.{◌≡◌, refl, codes}
use sessionhub.Drops.{safe_name}
use sessionhub.Drops.Safe.{SafeName, safe_name-Safe}

parent_is_no_name : safe_name (codes "../..") ≡ codes "drop"
unfolding safe_name
parent_is_no_name = refl

only_file_name : safe_name (codes "../etc/.my cv..pdf") ≡ codes "my-cv.-pdf"
unfolding safe_name
only_file_name = refl

safe_name-Safe_example : SafeName (safe_name (codes "../etc/.my cv..pdf"))
safe_name-Safe_example = safe_name-Safe (codes "../etc/.my cv..pdf")
