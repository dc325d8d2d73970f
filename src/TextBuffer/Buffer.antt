-- ===== src/TextBuffer/Buffer.antt =====
-- The bindings of text_buffer_stubs.c on text buffers. An int32 result is the number that is cast.
use opentui_ocaml.Prelude.{
  ℕ, ◌-◌, ◌^◌, Bool, not, ◌&&◌, List, ◌==◌, leb, if◌then◌else◌, found, length,
}
use opentui_ocaml.Prelude.Int.{ℤ, pos, negsuc}
use opentui_ocaml.Status.{Status, ok, invalid_argument, stale_handle, native_failure}
use opentui_ocaml.Values.{to_int32, Value, string_val, to_uint32}
use opentui_ocaml.TextBuffer.Native.{Command, Query, Attempt, NativeText}
use opentui_ocaml.TextBuffer.Arguments.{in_range, ByteArray, read_byte_array}

module _ (native : NativeText) where
  open native use {World, perform, ask, try}

  unfoldable pub text_buffer_create : ℤ → World → (Status × ℕ) × World
  text_buffer_create width_method w =
      if not (in_range width_method 1)
      then ((invalid_argument, 0), w)
      else let made = ask (Query.create_text_buffer (to_uint32 width_method)) w in
        if made.0 == 0 then ((native_failure, 0), made.1) else ((ok, made.0), made.1)

  unfoldable pub text_buffer_destroy : ℕ → World → World
  text_buffer_destroy handle w =
      if handle == 0 then w else perform (Command.destroy_text_buffer handle) w

  unfoldable pub text_buffer_clear : ℕ → World → Status × World
  text_buffer_clear handle w =
      if handle == 0 then (stale_handle, w) else (ok, perform (Command.clear handle) w)

  unfoldable pub text_buffer_reset : ℕ → World → Status × World
  text_buffer_reset handle w =
      if handle == 0 then (stale_handle, w) else (ok, perform (Command.reset handle) w)

  -- The part after the checks.
  unfoldable pub append_bytes : ℕ → List ℕ → World → Status × World
  append_bytes handle bytes w =
      let before = ask (Query.get_byte_size handle) w in
      let appended = perform (Command.append handle bytes) before.1 in
      let after = ask (Query.get_byte_size handle) appended in
      if not (length bytes == 0) && after.0 == before.0
      then (native_failure, after.1)
      else (ok, after.1)

  unfoldable pub text_buffer_append : ℕ → ByteArray → World → Status × World
  unfolding append_bytes
  text_buffer_append handle array w =
      if handle == 0
      then (stale_handle, w)
      else found (read_byte_array array) (invalid_argument, w)
          (λ bytes. append_bytes handle bytes w)

  unfoldable pub text_buffer_register_mem_buffer :
      ℕ → ByteArray → Bool → World → (Status × ℤ) × World
  text_buffer_register_mem_buffer handle array owned w =
      if handle == 0
      then ((stale_handle, negsuc 0), w)
      else found (read_byte_array array) ((invalid_argument, negsuc 0), w)
          (λ bytes.
            let registered = ask (Query.register_mem_buffer handle bytes owned) w in
            if registered.0 == 65535
            then ((native_failure, negsuc 0), registered.1)
            else ((ok, pos registered.0), registered.1))

  unfoldable pub text_buffer_replace_mem_buffer : ℕ → ℤ → ByteArray → Bool → World → Status × World
  text_buffer_replace_mem_buffer handle mem_id array owned w =
      if handle == 0
      then (stale_handle, w)
      else if not (in_range mem_id 255)
      then (invalid_argument, w)
      else found (read_byte_array array) (invalid_argument, w)
          (λ bytes.
            let replaced =
              try (Attempt.replace_mem_buffer handle (to_uint32 mem_id) bytes owned) w in
            if replaced.0 then (ok, replaced.1) else (native_failure, replaced.1))

  unfoldable pub text_buffer_set_text_from_mem : ℕ → ℤ → ℤ → World → Status × World
  text_buffer_set_text_from_mem handle mem_id expected_byte_size w =
      if handle == 0
      then (stale_handle, w)
      else if not (in_range mem_id 255)
      then (invalid_argument, w)
      else let sized =
          ask (Query.get_byte_size handle)
            (perform (Command.set_text_from_mem handle (to_uint32 mem_id)) w) in
        if sized.0 == to_uint32 expected_byte_size then (ok, sized.1) else (native_failure, sized.1)

  unfoldable pub text_buffer_length : ℕ → World → (Status × ℤ) × World
  text_buffer_length handle w =
      if handle == 0
      then ((stale_handle, pos 0), w)
      else let answer = ask (Query.get_length handle) w in ((ok, to_int32 answer.0), answer.1)

  unfoldable pub text_buffer_byte_size : ℕ → World → (Status × ℤ) × World
  text_buffer_byte_size handle w =
      if handle == 0
      then ((stale_handle, pos 0), w)
      else let answer = ask (Query.get_byte_size handle) w in ((ok, to_int32 answer.0), answer.1)

  unfoldable pub text_buffer_line_count : ℕ → World → (Status × ℤ) × World
  text_buffer_line_count handle w =
      if handle == 0
      then ((stale_handle, pos 0), w)
      else let answer = ask (Query.get_line_count handle) w in ((ok, to_int32 answer.0), answer.1)

  unfoldable pub text_buffer_load_file : ℕ → Value → World → Status × World
  text_buffer_load_file handle path_value w =
      if handle == 0
      then (stale_handle, w)
      else found (string_val path_value) (invalid_argument, w)
          (λ path.
            if not (leb (length path) (2 ^ 32 - 1))
            then (invalid_argument, w)
            else let loaded = try (Attempt.load_file handle path) w in
              if loaded.0 then (ok, loaded.1) else (native_failure, loaded.1))

  unfoldable pub text_buffer_get_tab_width : ℕ → World → (Status × ℤ) × World
  text_buffer_get_tab_width handle w =
      if handle == 0
      then ((stale_handle, pos 0), w)
      else let answer = ask (Query.get_tab_width handle) w in ((ok, to_int32 answer.0), answer.1)

  unfoldable pub text_buffer_set_tab_width : ℕ → ℤ → World → Status × World
  text_buffer_set_tab_width handle width w =
      if handle == 0
      then (stale_handle, w)
      else if not (in_range width 255)
      then (invalid_argument, w)
      else (ok, perform (Command.set_tab_width handle (to_uint32 width)) w)
