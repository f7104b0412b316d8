-- ===== src/Lib.antt =====
-- A verification library for compat_layer, a Vulkan layer that makes Mali drivers fit for DXVK.
--
-- The layer stands between an application and the driver: each entry point looks its device up,
-- does its own bookkeeping and calls the driver. Every table is behind a lock, so an entry point,
-- or each part of it under one lock, is one step of the model, and a run is a sequence of steps.
-- State is passed on explicitly; a call that may throw returns an Option.
--
-- Driver.antt is the driver below the layer (the dispatch table of src/vulkan/vk_layer.h), which
-- is not code of the repository: a driver is any function from the calls made so far to results
-- and handles. What the Vulkan specification promises of it is a named hypothesis of the theorems
-- that need it. Device.antt has the fields of `struct device` (src/layer.hpp) that are read.
--
-- Descriptors/Tracking.antt and Descriptors/Sets.antt are the maps and entry points for
-- descriptor sets in src/descriptors.cpp. Allocator.antt is `DescriptorSetAllocator` of
-- src/layer.cpp and src/layer.hpp.
--
-- SyncPool.antt is the pool of fences and semaphores in the same two files.
--
-- Formats.antt has the tables of block sizes and texel sizes of src/sparse_binding.cpp, and
-- Sparse/Budget.antt the counter of committed bytes, also as interleaved atomic accesses of
-- threads. Memory.antt is `FindMemoryType` of src/buffer.cpp. Resources.antt with
-- Resources/Buffers.antt, Resources/Images.antt and Resources/Shadow.antt are the maps and entry
-- points of src/buffer.cpp and src/image.cpp and the memory behind sparse resources that
-- src/sparse_binding.cpp gives them: creation asks for a budget and for memory, binds it, and
-- takes everything back when a step fails. The clearing of a sparse resource goes through
-- `SubmitOneShot` of src/queue.cpp, which is the parameter `submit` there: it runs a recording
-- on a command buffer. Resources/Staging.antt has the layer's own staging buffers, from
-- `CreateStagingBuffer` to the loop of `StagingResources::Cleanup` that gives them back.
--
-- Batches.antt is `StagingResources` of src/staging_resources.cpp: what a submission holds until the
-- queue is done with it, its fence and semaphore, its queries, and `Cleanup`, which gives all of it
-- back. Whether a wait for a fence returns is read off the calls: some submission was given the
-- fence since it was made or reset. Commands.antt is src/command_buffer.cpp: the maps of command
-- buffers and of command pools, with the descriptor sets that live with a command buffer, which
-- Commands/Push.antt takes from the allocator as src/push_descriptors.cpp does. Queues.antt is
-- src/queue.cpp: a submission takes the batches of its command buffers, leaves them in the
-- device's queue and gives each fence to a submission of its own; Queues/OneShot.antt is
-- `SubmitOneShot`, and Queues/Sparse.antt the binding of sparse memory in src/sparse_binding.cpp
-- that goes through it. Finalizer.antt is the thread of src/layer.cpp that waits for the batches
-- and cleans them up, and the end of a device. In these four an operation that does not return (it
-- waits for a fence that nobody signals or for a lock that its thread holds, follows a null
-- pointer, or throws) is `none`; the global lock is the parameter `held` where it matters.
--
-- Descriptors/Layouts.antt is the maps of set layouts, templates and pipeline layouts in
-- src/descriptors.cpp and src/pipelines.cpp, and Descriptors/Updates.antt the updates of descriptor
-- sets. Commands/Emulated.antt puts them together with the allocator into
-- `CmdPushDescriptorSetKHR`, Commands/Templates.antt does so for update templates, and
-- Commands/Vertex.antt is the binding of vertex buffers.
--
-- NullDescriptors.antt, NullDescriptors/Writes.antt and NullDescriptors/Views.antt are
-- src/null_descriptors.cpp: the loops over arrays of infos, the patching of descriptor writes and
-- of template data, and the views that stand for null handles with their caches. Memory is a word
-- of eight bytes at each address there.
--
-- Samplers.antt is src/samplers.cpp, with the patching of immutable samplers that
-- src/descriptors.cpp does when a layout is created.
--
-- Profile.antt is src/spoof_profile.cpp: features and properties reported by the tables of
-- src/generated_spoofed_profile.hpp, which are arguments, and the masking of what a device is
-- created with. The recursive call of `mask_next_features` runs on fuel; the length of the chain
-- is enough, as each call is on a shorter one.
--
-- Extensions.antt is the spoofed extensions of src/spoof_profile.cpp with the two entry points of
-- src/layer.cpp that list and enable them.
--
-- The comment at the top of each file in these directories says what it is about; files named for
-- a property have its proof, and Tests.antt the runs on concrete input.
--
-- Numbers are natural numbers, and a machine counter has its wrap-around written out. Loops
-- recurse on the list or the range that they go over, and no other definition uses fuel.
--
-- Not modelled: log lines, the profiler of src/mali_gpu_profiler.cpp, the loading of entry points
-- in src/vk_func.cpp, third-party code (src/spirv_reflect, src/vulkan, spirv-tools), the rewriting
-- of shaders in src/pipelines.cpp and src/shader_reflector.cpp, which is done by that code, the
-- tracking of compute state in src/pipeline_state.cpp, which the build leaves out, the rest of the
-- creation of instances and devices in src/layer.cpp, and src/timestamps.cpp.
pub mod Prelude
pub mod Driver
pub mod Device
pub mod Descriptors
pub mod Allocator
pub mod Formats
pub mod Sparse
pub mod Memory
pub mod Profile
pub mod Resources
pub mod NullDescriptors
pub mod Samplers
pub mod SyncPool
pub mod Batches
pub mod Commands
pub mod Queues
pub mod Finalizer
pub mod Extensions
