-- ===== src/Desktop/SshConfigLaws.antt =====
-- src/desktop.rs: the text around the managed block stays as it is.
use rust_ssh.Prelude.{
  ◌≡◌, refl, ◌⊎◌, inl, inr, ap, ◌∙◌, sym, Bool-cases, Option-cases, true, ◌++◌, [], ◌∷◌, Option,
  none, some, Text, codes, find, find-append, contains, replace, trim_end, IsBlank, append_assoc,
}
use rust_ssh.Desktop.SshConfig.{
  managed_ssh_begin, managed_ssh_end, rewrite_setup_path_in_managed_block, managed_text,
  managed_body, new_blocks,
}

-- `text'` is `text` with another body in its managed block and `gap` after it.
pub record IsRewritten (text text' gap : Text) : Type 0 where
  pub before : Text
  pub body : Text
  pub new_body : Text
  pub after : Text
  pub was : text ≡ before ++ managed_ssh_begin ++ body ++ managed_ssh_end ++ after
  pub is : text' ≡ before ++ managed_ssh_begin ++ new_body ++ managed_ssh_end ++ (gap ++ after)

module _ (text : Text) where
  found_block :
      (before after_begin body after : Text)
      → find managed_ssh_begin text ≡ some (before, after_begin)
      → find managed_ssh_end after_begin ≡ some (body, after)
      → text ≡ before ++ managed_ssh_begin ++ body ++ managed_ssh_end ++ after
  found_block before after_begin body after f g =
      find-append managed_ssh_begin text before after_begin f
      ∙ ap (λ t. before ++ managed_ssh_begin ++ t)
          (find-append managed_ssh_end after_begin body after g)
      ∙ sym (append_assoc (before ++ managed_ssh_begin) (body ++ managed_ssh_end) after)
      ∙ ap (λ t. t ++ after) (sym (append_assoc (before ++ managed_ssh_begin) body managed_ssh_end))

  -- Migrating the path of the setup file changes nothing, or the old path stands in the managed block
  -- and its occurrences there are replaced by the new one, and nothing else.
  pub rewrite_setup_path-IsRewritten :
      (old_path new_path : Text)
      → (rewrite_setup_path_in_managed_block text old_path new_path ≡ text)
        ⊎ ((r : IsRewritten text (rewrite_setup_path_in_managed_block text old_path new_path) [])
            × (contains old_path r.body ≡ true)
            × (r.new_body ≡ replace old_path new_path r.body))
  unfolding rewrite_setup_path_in_managed_block
  rewrite_setup_path-IsRewritten old_path new_path =
      elim (Option-cases (find managed_ssh_begin text)) [
        | inl e ↦ rw (e, rewrite_setup_path_in_managed_block) (inl refl)
        | inr ((before, after_begin), e) ↦
            rw (e, rewrite_setup_path_in_managed_block)
              (elim (Option-cases (find managed_ssh_end after_begin)) [
                | inl f ↦ rw f (inl refl)
                | inr ((body, after), f) ↦ rw f (elim (Bool-cases (contains old_path body)) [
                  | inl c ↦ rw c (
                      inr (
                        record {
                          before = before;
                          body = body;
                          new_body = replace old_path new_path body;
                          after = after;
                          was = found_block before after_begin body after e f;
                          is = refl;
                        },
                        c,
                        refl,
                      ))
                  | inr c ↦ rw c (inl refl)
                ])
              ])
      ]

  -- What an update does to the text around the managed block, and the errors it has.
  pub data IsUpdated (host_block device_id host : Text) : Option Text → Type 0 where
    -- There is no managed block: it goes to the end, after the text without its last blanks.
    is_appended :
        (blanks : Text)
        → text ≡ trim_end text ++ blanks
        → IsBlank blanks
        → find managed_ssh_begin text ≡ none
        → (gap : Text)
        → IsUpdated host_block device_id host
            (some (trim_end text ++ gap ++ managed_text (host_block ∷ [])))
    -- There is one: only its body changes.
    is_rewritten :
        (text' : Text) (r : IsRewritten text text' (codes "\n"))
        → managed_body (new_blocks r.body host_block device_id host) ≡ r.new_body
        → IsUpdated host_block device_id host (some text')
    -- It has no end.
    is_incomplete :
        (before after_begin : Text)
        → find managed_ssh_begin text ≡ some (before, after_begin)
        → find managed_ssh_end after_begin ≡ none
        → IsUpdated host_block device_id host none
