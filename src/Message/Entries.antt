-- ===== src/Message/Entries.antt =====
-- src/ice/error.cpp: the texts of the `std::errc` constants, in the order in which they are tested.
use Prim.Native.String.{String}
use ice_test.Base.{List, [], ◌∷◌, ◌++◌}

-- The enumerators of `std::errc` that the source names.
pub data StdErrc : Type 0 where
  address_family_not_supported address_in_use address_not_available already_connected
        argument_list_too_long argument_out_of_domain bad_address bad_file_descriptor bad_message
        broken_pipe connection_aborted connection_already_in_progress connection_refused
        connection_reset cross_device_link destination_address_required device_or_resource_busy
        directory_not_empty executable_format_error file_exists file_too_large filename_too_long
        function_not_supported host_unreachable identifier_removed illegal_byte_sequence
        inappropriate_io_control_operation interrupted invalid_argument invalid_seek io_error
        is_a_directory message_size network_down network_reset network_unreachable no_buffer_space
        no_child_process no_link no_lock_available no_message_available no_message
        no_protocol_option no_space_on_device no_stream_resources no_such_device_or_address
        no_such_device no_such_file_or_directory no_such_process not_a_directory not_a_socket
        not_a_stream not_connected not_enough_memory not_supported operation_canceled
        operation_in_progress operation_not_permitted operation_not_supported operation_would_block
        owner_dead permission_denied protocol_error protocol_not_supported read_only_file_system
        resource_deadlock_would_occur resource_unavailable_try_again result_out_of_range
        state_not_recoverable stream_timeout text_file_busy timed_out too_many_files_open_in_system
        too_many_files_open too_many_links too_many_symbolic_link_levels value_too_large
        wrong_protocol_type :
      StdErrc

unfoldable pub first_entries : List (StdErrc × String)
first_entries =
    (StdErrc.address_family_not_supported, "address family not supported")
    ∷ (StdErrc.address_in_use, "address in use")
    ∷ (StdErrc.address_not_available, "address not available")
    ∷ (StdErrc.already_connected, "already connected")
    ∷ (StdErrc.argument_list_too_long, "argument list too long")
    ∷ (StdErrc.argument_out_of_domain, "argument out of domain")
    ∷ (StdErrc.bad_address, "bad address")
    ∷ (StdErrc.bad_file_descriptor, "bad file descriptor")
    ∷ (StdErrc.bad_message, "bad message")
    ∷ (StdErrc.broken_pipe, "broken pipe")
    ∷ (StdErrc.connection_aborted, "connection aborted")
    ∷ (StdErrc.connection_already_in_progress, "connection already in progress")
    ∷ (StdErrc.connection_refused, "connection refused")
    ∷ (StdErrc.connection_reset, "connection reset")
    ∷ (StdErrc.cross_device_link, "cross device link")
    ∷ (StdErrc.destination_address_required, "destination address required")
    ∷ (StdErrc.device_or_resource_busy, "device or resource busy")
    ∷ (StdErrc.directory_not_empty, "directory not empty")
    ∷ (StdErrc.executable_format_error, "executable format error")
    ∷ (StdErrc.file_exists, "file exists")
    ∷ (StdErrc.file_too_large, "file too large")
    ∷ (StdErrc.filename_too_long, "filename too long")
    ∷ (StdErrc.function_not_supported, "function not supported")
    ∷ (StdErrc.host_unreachable, "host unreachable")
    ∷ (StdErrc.identifier_removed, "identifier removed")
    ∷ (StdErrc.illegal_byte_sequence, "illegal byte sequence")
    ∷ (StdErrc.inappropriate_io_control_operation, "inappropriate io control operation")
    ∷ (StdErrc.interrupted, "interrupted")
    ∷ (StdErrc.invalid_argument, "invalid argument")
    ∷ (StdErrc.invalid_seek, "invalid seek")
    ∷ (StdErrc.io_error, "io error")
    ∷ (StdErrc.is_a_directory, "is a directory")
    ∷ (StdErrc.message_size, "message size")
    ∷ (StdErrc.network_down, "network down")
    ∷ (StdErrc.network_reset, "network reset")
    ∷ (StdErrc.network_unreachable, "network unreachable")
    ∷ (StdErrc.no_buffer_space, "no buffer space")
    ∷ (StdErrc.no_child_process, "no child process")
    ∷ (StdErrc.no_link, "no link")
    ∷ []

unfoldable pub last_entries : List (StdErrc × String)
last_entries =
    (StdErrc.no_lock_available, "no lock available")
    ∷ (StdErrc.no_message_available, "no message available")
    ∷ (StdErrc.no_message, "no message")
    ∷ (StdErrc.no_protocol_option, "no protocol option")
    ∷ (StdErrc.no_space_on_device, "no space on device")
    ∷ (StdErrc.no_stream_resources, "no stream resources")
    ∷ (StdErrc.no_such_device_or_address, "no such device or address")
    ∷ (StdErrc.no_such_device, "no such device")
    ∷ (StdErrc.no_such_file_or_directory, "no such file or directory")
    ∷ (StdErrc.no_such_process, "no such process")
    ∷ (StdErrc.not_a_directory, "not a directory")
    ∷ (StdErrc.not_a_socket, "not a socket")
    ∷ (StdErrc.not_a_stream, "not a stream")
    ∷ (StdErrc.not_connected, "not connected")
    ∷ (StdErrc.not_enough_memory, "not enough memory")
    ∷ (StdErrc.not_supported, "not supported")
    ∷ (StdErrc.operation_canceled, "operation canceled")
    ∷ (StdErrc.operation_in_progress, "operation in progress")
    ∷ (StdErrc.operation_not_permitted, "operation not permitted")
    ∷ (StdErrc.operation_not_supported, "operation not supported")
    ∷ (StdErrc.operation_would_block, "operation would block")
    ∷ (StdErrc.owner_dead, "owner dead")
    ∷ (StdErrc.permission_denied, "permission denied")
    ∷ (StdErrc.protocol_error, "protocol error")
    ∷ (StdErrc.protocol_not_supported, "protocol not supported")
    ∷ (StdErrc.read_only_file_system, "read only file system")
    ∷ (StdErrc.resource_deadlock_would_occur, "resource deadlock would occur")
    ∷ (StdErrc.resource_unavailable_try_again, "resource unavailable try again")
    ∷ (StdErrc.result_out_of_range, "result out of range")
    ∷ (StdErrc.state_not_recoverable, "state not recoverable")
    ∷ (StdErrc.stream_timeout, "stream timeout")
    ∷ (StdErrc.text_file_busy, "text file busy")
    ∷ (StdErrc.timed_out, "timed out")
    ∷ (StdErrc.too_many_files_open_in_system, "too many files open in system")
    ∷ (StdErrc.too_many_files_open, "too many files open")
    ∷ (StdErrc.too_many_links, "too many links")
    ∷ (StdErrc.too_many_symbolic_link_levels, "too many symbolic link levels")
    ∷ (StdErrc.value_too_large, "value too large")
    ∷ (StdErrc.wrong_protocol_type, "wrong protocol type")
    ∷ []

unfoldable pub entries : List (StdErrc × String)
unfolding first_entries last_entries
entries = first_entries ++ last_entries
