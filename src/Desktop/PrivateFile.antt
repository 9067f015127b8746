-- ===== src/Desktop/PrivateFile.antt =====
-- src/desktop.rs, `write_private_file`: a file is replaced as a whole or left alone. What the file
-- system answers is left open.
use rust_ssh.Prelude.{ℕ, List, Option, none, some, Text, Prog, ret, call}

-- On the temporary file, whose name holds the process and a time; `rename` puts it in the place of
-- the destination. Each answers an error, or `none`.
pub data FileCall : Type 0 where
  create_private : FileCall
  write_all : List ℕ → FileCall
  flush rename remove_file : FileCall

abbrev pub FileReply : FileCall → Type 0
FileReply c = Option Text

-- `Result<()>`: the error, or `none`; without a name of its own the path is refused.
pub data Written : Type 0 where
  written : Written
  invalid_path : Written
  failed_write failed_rename : Text → Written

abbrev pub Writer : Type 0
Writer = Prog FileCall FileReply Written

-- After an error the temporary file is removed, whatever that answers.
unfoldable pub give_up : Written → Writer
give_up result = call remove_file λ _. ret result

unfoldable pub renamed : Option Text → Writer
unfolding give_up
renamed none = ret written
renamed (some e) = give_up (failed_rename e)

unfoldable pub flushed : Option Text → Writer
unfolding give_up renamed
flushed none = call rename renamed
flushed (some e) = give_up (failed_write e)

unfoldable pub filled : Option Text → Writer
unfolding give_up flushed
filled none = call flush flushed
filled (some e) = give_up (failed_write e)

unfoldable pub created : List ℕ → Option Text → Writer
unfolding give_up filled
created bytes none = call (write_all bytes) filled
created bytes (some e) = give_up (failed_write e)

-- `file_name` is the name of the path, if it has one that is text.
unfoldable pub write_private_file : Option Text → List ℕ → Writer
unfolding created
write_private_file none bytes = ret invalid_path
write_private_file (some file_name) bytes = call create_private (created bytes)
