-- ===== src/Prepare/Wrapped.antt =====
-- A header whose code section ends behind the largest `int`.
use q3vm.Base.{ℕ, ◌+◌, ◌^◌, ◌≤◌, ◌<◌, ◌≡◌, none, arith, true, false}
use q3vm.Image.{vm_max_image_size, vm_max_bss_length, header_bad}
use q3vm.Memory.{Block, copy_from}
use q3vm.Prepare.{code_bytes, fill_code, prepare_interpreter}
use q3vm.State.{code_sec, State, Host, Header}

-- Every word of the header is fine but that the end of the code section wraps to a negative `int`.
pub record IsWrapped (h : Header) (length : ℕ) : Type 0 where
  pub instructions : (0 < h.instruction_count) × (h.instruction_count < 2 ^ 31)
  pub code_offset : h.code_offset < 2 ^ 31
  pub code_length : h.code_length < 2 ^ 31
  pub wraps : 2 ^ 31 ≤ h.code_offset + h.code_length
  pub bss_length : h.bss_length ≤ vm_max_bss_length
  pub file_length : length ≤ vm_max_image_size
  pub data_end : h.data_offset + h.data_length + h.lit_length ≤ length

-- `VM_LoadQVM` accepts such a header, and `VM_PrepareInterpreter` then copies the code from outside
-- the file.
pub wrapped_header-escapes :
    (host : Host) (image : Block) (h : Header) (s : State)
    → IsWrapped h image.size
    → s.vm.code_length ≡ h.code_length
    → host.grants code_sec (code_bytes h.code_length) ≡ true
    → (header_bad h image.size ≡ false) × (prepare_interpreter host image h s ≡ none)
unfolding header_bad prepare_interpreter fill_code copy_from
wrapped_header-escapes host image h s w same granted =
    (accepted, ground (arith, w.wraps, w.file_length))
  where
    accepted : header_bad h image.size ≡ false
    accepted =
        unfold header_bad in
        ground (
          arith, w.instructions, w.code_offset, w.code_length, w.wraps, w.bss_length, w.file_length,
          w.data_end,
        )
